-- ===== src/Config/Proxy/Expanded.antt =====
-- What Expand gives: one entry for each port, or the first error.
use qtrp.Common.{
  ℕ, zero, suc, ◌+◌, ◌<◌, ◌≡◌, refl, Bool, true, List, [], ◌∷◌, some, sym, ap, ◌∙◌, ok, arith, ltb,
  length, get_elem?,
}
use qtrp.Go.Int64.{ℤ, pos, eqb_ℤ}
use qtrp.Config.Port.{PortRange, parse_port_range, count}
use qtrp.Config.Port.Accepted.{parse_port_range-IsRange}
use qtrp.Config.Port.Listed.{ports_lem}
use qtrp.Config.Proxy.{ProxyConfig, ExpandedProxy, entry, expand_loop, expand}

-- The entries of two lists of ports of one length, from index `i` on.
record Entries (p : ProxyConfig) (many : Bool) (i : ℕ) (locals remotes : List ℤ)
    (ps : List ExpandedProxy) : Type 0 where
  as_many : length ps ≡ length locals
  in_order :
      (j : ℕ) (l r : ℤ)
      → get_elem? locals j ≡ some l
      → get_elem? remotes j ≡ some r
      → get_elem? ps j ≡ some (entry p many (i + j) l r)

Entries-cons :
    (p : ProxyConfig) (many : Bool) (i : ℕ) (l r : ℤ) (locals remotes : List ℤ)
    (ps : List ExpandedProxy)
    → Entries p many (i + 1) locals remotes ps
    → Entries p many i (l ∷ locals) (r ∷ remotes) (entry p many i l r ∷ ps)
Entries-cons p many i l r locals remotes ps v = record {
  as_many = omega (arith, v.as_many);
  in_order = at;
}
  where
    at :
        (j : ℕ) (l' r' : ℤ)
        → get_elem? (l ∷ locals) j ≡ some l'
        → get_elem? (r ∷ remotes) j ≡ some r'
        → get_elem? (entry p many i l r ∷ ps) j ≡ some (entry p many (i + j) l' r')
    at zero l' r' e f = let k : i + 0 ≡ i = omega arith in cc k
    at (suc j) l' r' e f =
        let k : i + suc j ≡ i + 1 + j = omega arith in rw k (v.in_order j l' r' e f)

expand_loop-Entries :
    (p : ProxyConfig) (many : Bool) (i : ℕ) (locals remotes : List ℤ)
    → length locals ≡ length remotes
    → (ps : List ExpandedProxy) × (expand_loop p many i locals remotes ≡ ok ps)
      × Entries p many i locals remotes ps
unfolding expand_loop
expand_loop-Entries p many i [] remotes h =
    ([], refl, record { as_many = refl; in_order = λ j l r e. cc })
expand_loop-Entries p many i (l ∷ locals) [] h = absurd (omega arith)
expand_loop-Entries p many i (l ∷ locals) (r ∷ remotes) h =
    let (ps, e, v) = expand_loop-Entries p many (i + 1) locals remotes (omega arith) in
    (entry p many i l r ∷ ps, rw e refl, Entries-cons p many i l r locals remotes ps v)

eqb_ℤ_refl : (a : ℤ) → eqb_ℤ a a ≡ true
eqb_ℤ_refl a = ground arith

-- If both texts are accepted and the two ranges are as long as one another, the result is an entry
-- for each port: entry `i` pairs the port `i` places above the first local one with the one `i`
-- places above the first remote one, under the proxy's name, with `_i` behind it if there are
-- several.
pub expand_pairs :
    (p : ProxyConfig) (lr rr : PortRange)
    → parse_port_range p.local_port ≡ ok lr
    → parse_port_range p.remote_port ≡ ok rr
    → count lr ≡ count rr
    → (a c : ℕ) × (ps : List ExpandedProxy) × (lr.start ≡ pos a)
      × (rr.start ≡ pos c)
      × (expand p ≡ ok ps)
      × (count lr ≡ pos (length ps))
      × ((i : ℕ)
          → i < length ps
          → get_elem? ps i ≡ some (entry p (ltb 1 (length ps)) i (pos (a + i)) (pos (c + i))))
expand_pairs p lr rr hl hr same =
    let (a, b, ls, el, pl, cl, vl) = ports_lem lr (parse_port_range-IsRange p.local_port lr hl) in
    let (c, d, rs, er, pr, cr, vr) = ports_lem rr (parse_port_range-IsRange p.remote_port rr hr) in
    let as_long : length ls ≡ length rs = ground (arith, cl, cr, same) in
    let (ps, e, v) = expand_loop-Entries p (ltb 1 (length ls)) 0 ls rs as_long in
    let n : length ps ≡ length ls = v.as_many in
    (
      a,
      c,
      ps,
      ap (λ (r : PortRange). r.start) el,
      ap (λ (r : PortRange). r.start) er,
      unfold expand in rw (hl, hr, same, eqb_ℤ_refl (count rr), pl, pr) e,
      cl ∙ ap pos (sym n),
      λ i h.
          let z : 0 + i ≡ i = omega arith in
          rw n (
            v.in_order i (pos (a + i)) (pos (c + i)) (vl.in_order i (omega (arith, n)))
              (vr.in_order i (omega (arith, n, as_long)))
            ∙ ap (λ (k : ℕ). some (entry p (ltb 1 (length ls)) k (pos (a + i)) (pos (c + i)))) z),
    )
