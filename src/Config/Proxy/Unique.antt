-- ===== src/Config/Proxy/Unique.antt =====
-- Expand is total, and its entries do not collide.
use qtrp.Common.{
  ℕ, ◌+◌, ◌<◌, ◌≡◌, ◌≢◌, sym, ap, ◌∙◌, ◌⊎◌, inl, inr, true, false, List, some, ok, err, arith, ltb,
  if◌then◌else◌, length, get_elem?, get_elem?-lt, Bool-cases, Result-cases,
}
use mathlib.Core.List.{tail-eq_of_cons-eq, append_cancel_left}
use qtrp.Go.Int64.{ℤ, pos, pos_part, eqb_ℤ}
use qtrp.Go.Strconv.{format_nat-injective}
use qtrp.Go.Strings.{Text}
use qtrp.Config.Port.{PortRange, parse_port_range, count}
use qtrp.Config.Proxy.{
  ProxyConfig, ExpandedProxy, ExpandError, invalid_local_port, invalid_remote_port, count_mismatch,
  panics, entry, expand, indexed_name,
}
use qtrp.Config.Proxy.Expanded.{expand_pairs}

-- Both texts are accepted, and the ranges are as long as one another.
pub record Matching (p : ProxyConfig) : Type 0 where
  pub local_range : PortRange
  pub remote_range : PortRange
  pub local_accepted : parse_port_range p.local_port ≡ ok local_range
  pub remote_accepted : parse_port_range p.remote_port ≡ ok remote_range
  pub as_long : count local_range ≡ count remote_range

eqb_ℤ→eq : (a b : ℤ) → eqb_ℤ a b ≡ true → a ≡ b
eqb_ℤ→eq a b h = ground arith

counts_differ :
    (p : ProxyConfig) (lr rr : PortRange)
    → parse_port_range p.local_port ≡ ok lr
    → parse_port_range p.remote_port ≡ ok rr
    → eqb_ℤ (count lr) (count rr) ≡ false
    → expand p ≡ err (count_mismatch p.name (count lr) (count rr))
unfolding expand
counts_differ p lr rr hl hr h = rw (hl, hr, h)

eqb_ℤ_refl : (a : ℤ) → eqb_ℤ a a ≡ true
eqb_ℤ_refl a = ground arith

no_match :
    (p : ProxyConfig) (lr rr : PortRange)
    → parse_port_range p.local_port ≡ ok lr
    → parse_port_range p.remote_port ≡ ok rr
    → eqb_ℤ (count lr) (count rr) ≡ false
    → ¬ Matching p
no_match p lr rr hl hr other m =
    cc (other, eqb_ℤ_refl (count lr), m.local_accepted, m.remote_accepted, m.as_long)

-- Both texts are accepted: the counts decide.
both :
    (p : ProxyConfig) (lr rr : PortRange)
    → parse_port_range p.local_port ≡ ok lr
    → parse_port_range p.remote_port ≡ ok rr
    → (Matching p × ((ps : List ExpandedProxy) × (expand p ≡ ok ps)))
      ⊎ ((¬ Matching p) × ((e : ExpandError) × (expand p ≡ err e) × (e ≢ panics)))
both p lr rr hl hr = elim (Bool-cases (eqb_ℤ (count lr) (count rr))) [
  | inl same ↦
      let same' = eqb_ℤ→eq (count lr) (count rr) same in
      let (a, c, ps, _, _, e, _, _) = expand_pairs p lr rr hl hr same' in
      inl (
        record {
          local_range = lr;
          remote_range = rr;
          local_accepted = hl;
          remote_accepted = hr;
          as_long = same';
        },
        (ps, e),
      )
  | inr other ↦ inr (
    no_match p lr rr hl hr other,
    (count_mismatch p.name (count lr) (count rr), counts_differ p lr rr hl hr other, λ f. cc),
  )
]

-- Expand succeeds exactly when both texts are accepted and the two ranges are as long as one another;
-- in every other case it gives an error that is not a panic.
pub expand_total :
    (p : ProxyConfig)
    → (Matching p × ((ps : List ExpandedProxy) × (expand p ≡ ok ps)))
      ⊎ ((¬ Matching p) × ((e : ExpandError) × (expand p ≡ err e) × (e ≢ panics)))
expand_total p = elim (Result-cases (parse_port_range p.local_port)) [
  | inr (e, hl) ↦ inr (
    (λ m. cc (m.local_accepted, hl)),
    (invalid_local_port p.name e, unfold expand in rw hl, λ f. cc),
  )
  | inl (lr, hl) ↦ elim (Result-cases (parse_port_range p.remote_port)) [
    | inr (e, hr) ↦ inr (
      (λ m. cc (m.remote_accepted, hr)),
      (invalid_remote_port p.name e, unfold expand in rw (hl, hr), λ f. cc),
    )
    | inl (rr, hr) ↦ both p lr rr hl hr
  ]
]

-- A printed index tells the names apart.
indexed_name-injective : (s : Text) (i j : ℕ) → indexed_name s i ≡ indexed_name s j → i ≡ j
unfolding indexed_name
indexed_name-injective s i j h =
    format_nat-injective i j (tail-eq_of_cons-eq (append_cancel_left s _ _ h))

same_name :
    (s : Text) (n i j : ℕ)
    → i < n
    → j < n
    → (if ltb 1 n then indexed_name s i else s) ≡ (if ltb 1 n then indexed_name s j else s)
    → i ≡ j
same_name s n i j hi hj h = elim (Bool-cases (ltb 1 n)) [
  | inl many ↦ indexed_name-injective s i j (rw many at h)
  | inr one ↦ ground arith
]

same_entry :
    (p : ProxyConfig) (n i j a c : ℕ) (e f : ExpandedProxy)
    → i < n
    → j < n
    → entry p (ltb 1 n) i (pos (a + i)) (pos (c + i)) ≡ e
    → entry p (ltb 1 n) j (pos (a + j)) (pos (c + j)) ≡ f
    → (e.name ≡ f.name) ⊎ (e.remote_port ≡ f.remote_port)
    → i ≡ j
same_entry p n i j a c e f hi hj he hf (inl same) =
    let name_of = λ (x : ExpandedProxy). x.name in
    same_name p.name n i j hi hj (ap name_of he ∙ same ∙ sym (ap name_of hf))
same_entry p n i j a c e f hi hj he hf (inr same) =
    let port_of = λ (x : ExpandedProxy). x.remote_port in
    let eq : pos (c + i) ≡ pos (c + j) = ap port_of he ∙ same ∙ sym (ap port_of hf) in
    omega (arith, ap pos_part eq)

-- Two entries of one expansion have different names and different remote ports.
pub expand-distinct :
    (p : ProxyConfig) (ps : List ExpandedProxy) (i j : ℕ) (e f : ExpandedProxy)
    → expand p ≡ ok ps
    → get_elem? ps i ≡ some e
    → get_elem? ps j ≡ some f
    → (e.name ≡ f.name) ⊎ (e.remote_port ≡ f.remote_port)
    → i ≡ j
expand-distinct p ps i j e f h hi hj same = elim (expand_total p) [
  | inr (_, (x, hx, _)) ↦ cc
  | inl (m, _) ↦
      let (a, c, qs, _, _, hq, _, at) =
        expand_pairs p m.local_range m.remote_range m.local_accepted m.remote_accepted m.as_long in
      let eq : qs ≡ ps = cc in
      let i_lt : i < length qs = rw eq (get_elem?-lt ps i e hi) in
      let j_lt : j < length qs = rw eq (get_elem?-lt ps j f hj) in
      let he : entry p (ltb 1 (length qs)) i (pos (a + i)) (pos (c + i)) ≡ e = cc (at i i_lt) in
      let hf : entry p (ltb 1 (length qs)) j (pos (a + j)) (pos (c + j)) ≡ f = cc (at j j_lt) in
      same_entry p (length qs) i j a c e f i_lt j_lt he hf same
]
