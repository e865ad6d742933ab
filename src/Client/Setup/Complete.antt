-- ===== src/Client/Setup/Complete.antt =====
-- internal/client/client.go: the table of New against the expansions of the configured proxies.
use qtrp.Common.{
  ◌≡◌, ◌⊎◌, inl, inr, refl, sym, ap, ◌∙◌, subst, Bool-cases, some, List, [], ◌∷◌, arith, ok,
  >>=-eq-ok,
}
use qtrp.Client.Setup.{Table, add_all, collect, table_of}
use qtrp.Config.Load.{ClientConfig}
use qtrp.Config.Proxy.{ProxyConfig, ExpandedProxy, expand}
use qtrp.Go.Map.{text_key, load, store, load-store}
use qtrp.Go.Strings.{Text, text_eq, text_eq_iff, text_eq_refl}

-- A member of a list.
abbrev pub In : ExpandedProxy → List ExpandedProxy → Type 0
In e [] = ⊥
In e (p ∷ ps) = (e ≡ p) ⊎ In e ps

-- An entry of the expansion of a configured proxy.
abbrev pub IsEntry : List ProxyConfig → ExpandedProxy → Type 0
IsEntry [] e = ⊥
IsEntry (p ∷ ps) e = ((es : List ExpandedProxy) × (expand p ≡ ok es) × In e es) ⊎ IsEntry ps e

module _ (P : ExpandedProxy → Type 0) where
  -- The table has its entries under their names, and each has the property.
  abbrev Holds : Table → Type 0
  Holds t = (name : Text) (e : ExpandedProxy) → load name t ≡ some e → (e.name ≡ name) × P e

  store-Holds : (p : ExpandedProxy) (t : Table) → P p → Holds t → Holds (store p.name p t)
  store-Holds p t h i name e found = elim (Bool-cases (text_eq p.name name)) [
    | inl same ↦
        let here : p ≡ e = ground (arith, load-store p.name name p t, same, found) in
        (ap (λ x. x.name) (sym here) ∙ (text_eq_iff p.name name).0 same, subst P here h)
    | inr other ↦ i name e (ground (arith, load-store p.name name p t, other, found))
  ]

  add_all-Holds :
      (ps : List ExpandedProxy) (t : Table)
      → ((e : ExpandedProxy) → In e ps → P e)
      → Holds t
      → Holds (add_all ps t)
  unfolding add_all
  add_all-Holds [] t h i = i
  add_all-Holds (p ∷ ps) t h i =
      add_all-Holds ps (store p.name p t) (λ e m. h e (inr m)) (store-Holds p t (h p (inl refl)) i)

  collect-Holds :
      (ps : List ProxyConfig) (t t' : Table)
      → collect ps t ≡ ok t'
      → ((e : ExpandedProxy) → IsEntry ps e → P e)
      → Holds t
      → Holds t'
  unfolding collect
  collect-Holds [] t t' h q i = let same : t ≡ t' = cc in subst Holds same i
  collect-Holds (p ∷ ps) t t' h q i =
      let (es, one, rest) = >>=-eq-ok (expand p) (λ es. collect ps (add_all es t)) h in
      collect-Holds ps (add_all es t) t' rest (λ e m. q e (inr m))
        (add_all-Holds es t (λ e m. q e (inl (es, one, m))) i)

-- A name that is in the table stays there.
abbrev Has : Text → Table → Type 0
Has name t = (e : ExpandedProxy) × (load name t ≡ some e)

store-Has : (name : Text) (p : ExpandedProxy) (t : Table) → Has name t → Has name (store p.name p t)
store-Has name p t (e, h) = elim (Bool-cases (text_eq p.name name)) [
  | inl same ↦ (p, ground (arith, load-store p.name name p t, same))
  | inr other ↦ (e, ground (arith, load-store p.name name p t, other, h))
]

store-Has_self : (p : ExpandedProxy) (t : Table) → Has p.name (store p.name p t)
store-Has_self p t = (p, ground (arith, load-store p.name p.name p t, text_eq_refl p.name))

add_all-Has :
    (ps : List ExpandedProxy) (t : Table) (name : Text) → Has name t → Has name (add_all ps t)
unfolding add_all
add_all-Has [] t name h = h
add_all-Has (p ∷ ps) t name h = add_all-Has ps (store p.name p t) name (store-Has name p t h)

add_all-Has_new :
    (ps : List ExpandedProxy) (t : Table) (e : ExpandedProxy) → In e ps → Has e.name (add_all ps t)
unfolding add_all
add_all-Has_new [] t e m = elim m [ ]
add_all-Has_new (p ∷ ps) t e (inl same) =
    add_all-Has ps (store p.name p t) e.name
      (subst (λ (x : ExpandedProxy). Has x.name (store p.name p t)) (sym same) (store-Has_self p t))
add_all-Has_new (p ∷ ps) t e (inr m) = add_all-Has_new ps (store p.name p t) e m

collect-Has :
    (ps : List ProxyConfig) (t t' : Table) (name : Text)
    → collect ps t ≡ ok t'
    → Has name t
    → Has name t'
unfolding collect
collect-Has [] t t' name h i = let same : t ≡ t' = cc in subst (Has name) same i
collect-Has (p ∷ ps) t t' name h i =
    let (es, one, rest) = >>=-eq-ok (expand p) (λ es. collect ps (add_all es t)) h in
    collect-Has ps (add_all es t) t' name rest (add_all-Has es t name i)

collect-Has_new :
    (ps : List ProxyConfig) (t t' : Table) (e : ExpandedProxy)
    → collect ps t ≡ ok t'
    → IsEntry ps e
    → Has e.name t'
unfolding collect
collect-Has_new [] t t' e h m = elim m [ ]
collect-Has_new (p ∷ ps) t t' e h (inl (es, one, m)) =
    let (es', one', rest) = >>=-eq-ok (expand p) (λ es. collect ps (add_all es t)) h in
    let same : es ≡ es' = cc in
    collect-Has ps (add_all es' t) t' e.name rest (add_all-Has_new es' t e (subst (In e) same m))
collect-Has_new (p ∷ ps) t t' e h (inr m) =
    let (es, one, rest) = >>=-eq-ok (expand p) (λ es. collect ps (add_all es t)) h in
    collect-Has_new ps (add_all es t) t' e rest m

-- The table that New builds: what it has under a name is an entry of that name of the expansion of a
-- configured proxy, and the name of each such entry is in it. (Of two entries of one name it has one.)
pub table_lem :
    (cfg : ClientConfig) (t : Table)
    → table_of cfg ≡ ok t
    → ((name : Text) (e : ExpandedProxy)
        → load name t ≡ some e
        → (e.name ≡ name) × IsEntry cfg.proxies e)
      × ((e : ExpandedProxy)
          → IsEntry cfg.proxies e
          → (e' : ExpandedProxy) × (load e.name t ≡ some e'))
unfolding table_of load
table_lem cfg t h = (
  collect-Holds (IsEntry cfg.proxies) cfg.proxies [] t h (λ e m. m) (λ name e found. cc),
  λ e m. collect-Has_new cfg.proxies [] t e h m,
)
