-- ===== src/Vis/Laws.antt =====
-- Where the constants of a check come from.
use ts_m2cellcpp.Prelude.{
  ◌≡◌, refl, ap, ◌∙◌, subst, ◌⊎◌, inl, inr, ◌↔◌, true, false, Bool-cases, List, [], ◌∷◌, map,
  Option, none, some, Result, ok, err, arith,
}
use ts_m2cellcpp.Util.CsvFile.{Text}
use ts_m2cellcpp.Util.NamedValue.{Numbers, NamedValue, get_name, set_from_string}
use ts_m2cellcpp.Config.{config_exception, bad_subscript, parser_exception, Checked, value, throws}
use ts_m2cellcpp.Vis.{
  Thrown, Constant, globals, undefined, any_undefined, named_values, set_read, search_on,
  all_defined, read_key, search_config, search_globals, set_const_from_config,
}

module _ {D : Type 0} (lib : Numbers D) (get_key : Text → Text → Checked Text) where
  -- The key of `v` is in the section, and its text converts to `w`.
  abbrev pub Found : Text → NamedValue D → NamedValue D → Type 0
  Found section v w =
      (text : Text) × (get_key section (get_name v) ≡ value text)
      × (set_from_string lib text v ≡ ok w)

  -- The section of the check comes first.
  abbrev pub Defined : Text → NamedValue D → NamedValue D → Type 0
  Defined vi v w =
      Found vi v w ⊎ (get_key vi (get_name v) ≡ throws config_exception) × Found globals v w

  abbrev pub AllDefined : Text → List (NamedValue D) → List (NamedValue D) → Type 0
  AllDefined vi [] [] = Unit
  AllDefined vi (v ∷ vs) (w ∷ ws) = Defined vi v w × AllDefined vi vs ws
  AllDefined vi _ _ = ⊥

  -- What a search that throws nothing makes of an element.
  abbrev Searched : Text → Constant D → Constant D → Type 0
  Searched section (v, false) d = d ≡ (v, false)
  Searched section (v, true) d = read_key lib get_key (get_key section (get_name v)) v ≡ (d, none)

  abbrev AllSearched : Text → List (Constant D) → List (Constant D) → Type 0
  AllSearched section [] [] = Unit
  AllSearched section (c ∷ cs) (d ∷ ds) = Searched section c d × AllSearched section cs ds
  AllSearched section _ _ = ⊥

  search_on_iff :
      (r : Constant D × Option Thrown) (cs : List (Constant D))
      (rest : List (Constant D) × Option Thrown) (d : Constant D) (ds : List (Constant D))
      → (search_on r cs rest ≡ (d ∷ ds, none)) ↔ (r ≡ (d, none)) × (rest ≡ (ds, none))
  search_on_iff (c, some e) cs rest d ds = (λ h. ground (arith, h), λ (p, q). ground (arith, p))
  search_on_iff (c, none) cs (es, thrown) d ds =
      (λ h. (ground (arith, h), ground (arith, h)), λ (p, q). ground (arith, p, q))

  search_on_nil :
      (r : Constant D × Option Thrown) (cs : List (Constant D))
      (rest : List (Constant D) × Option Thrown)
      → ¬ (search_on r cs rest ≡ ([], none))
  search_on_nil (c, some e) cs rest h = ground (arith, h)
  search_on_nil (c, none) cs (es, thrown) h = ground (arith, h)

  search_config-AllSearched :
      (section : Text) (cs ds : List (Constant D))
      → (search_config lib get_key section cs ≡ (ds, none)) ↔ AllSearched section cs ds
  unfolding search_config
  search_config-AllSearched section [] [] = (λ h. tt, λ h. refl)
  search_config-AllSearched section [] (d ∷ ds) = (λ h. ground (arith, h), λ h. elim h [ ])
  search_config-AllSearched section ((v, false) ∷ cs) [] =
      (search_on_nil ((v, false), none) cs (search_config lib get_key section cs), λ h. elim h [ ])
  search_config-AllSearched section ((v, true) ∷ cs) [] = (
    search_on_nil (read_key lib get_key (get_key section (get_name v)) v) cs
        (search_config lib get_key section cs),
    λ h. elim h [ ],
  )
  search_config-AllSearched section ((v, false) ∷ cs) (d ∷ ds) =
      let (f, g) =
        search_on_iff ((v, false), none) cs (search_config lib get_key section cs) d ds in
      let (i, j) = search_config-AllSearched section cs ds in
      (λ h. (ground (arith, (f h).0), i (f h).1), λ (e, h). g (ground (arith, e), j h))
  search_config-AllSearched section ((v, true) ∷ cs) (d ∷ ds) =
      let (f, g) =
        search_on_iff (read_key lib get_key (get_key section (get_name v)) v) cs
          (search_config lib get_key section cs) d ds in
      let (i, j) = search_config-AllSearched section cs ds in
      (λ h. ((f h).0, i (f h).1), λ (e, h). g (e, j h))

  abbrev defined : NamedValue D → Constant D
  defined w = (w, false)

  set_read-ok :
      (v w : NamedValue D) (s : Result (NamedValue D)) → set_read s v ≡ (defined w, none) → s ≡ ok w
  set_read-ok v w (ok u) h = ground (arith, h)
  set_read-ok v w (err e) h = ground (arith, h)

  read_key-found :
      (v w : NamedValue D) (r : Checked Text)
      → read_key lib get_key r v ≡ (defined w, none)
      → (text : Text) × (r ≡ value text) × (set_from_string lib text v ≡ ok w)
  read_key-found v w (value text) h = (text, refl, set_read-ok v w (set_from_string lib text v) h)
  read_key-found v w (throws config_exception) h = ground (arith, h)
  read_key-found v w (throws bad_subscript) h = ground (arith, h)
  read_key-found v w (throws parser_exception) h = ground (arith, h)

  -- An element that the first search has set stays as it is.
  set_read-Searched :
      (v w : NamedValue D) (s : Result (NamedValue D)) (c : Constant D)
      → set_read s v ≡ (c, none)
      → Searched globals c (defined w)
      → s ≡ ok w
  set_read-Searched v w (ok u) c h k =
      let e : c ≡ (u, false) = ground (arith, h) in
      let same : defined w ≡ (u, false) =
        subst (λ (d : Constant D). Searched globals d (defined w)) e k in
      ground (arith, same)
  set_read-Searched v w (err e) c h k = ground (arith, h)

  -- The two searches of one element.
  read_key-Searched :
      (v w : NamedValue D) (r : Checked Text) (c : Constant D)
      → read_key lib get_key r v ≡ (c, none)
      → Searched globals c (defined w)
      → ((text : Text) × (r ≡ value text) × (set_from_string lib text v ≡ ok w))
        ⊎ (r ≡ throws config_exception) × Found globals v w
  read_key-Searched v w (value text) c h k =
      inl (text, refl, set_read-Searched v w (set_from_string lib text v) c h k)
  read_key-Searched v w (throws config_exception) c h k =
      let e : c ≡ (v, true) = ground (arith, h) in
      inr (
        refl,
        read_key-found v w (get_key globals (get_name v))
            (subst (λ (d : Constant D). Searched globals d (defined w)) e k),
      )
  read_key-Searched v w (throws bad_subscript) c h k = ground (arith, h)
  read_key-Searched v w (throws parser_exception) c h k = ground (arith, h)

  AllSearched-AllDefined :
      (vi : Text) (vs : List (NamedValue D)) (cs : List (Constant D)) (ws : List (NamedValue D))
      → AllSearched vi (map undefined vs) cs
      → AllSearched globals cs (map defined ws)
      → AllDefined vi vs ws
  AllSearched-AllDefined vi [] [] [] h k = tt
  AllSearched-AllDefined vi [] [] (w ∷ ws) h k = elim k [ ]
  AllSearched-AllDefined vi [] (c ∷ cs) ws h k = elim h [ ]
  AllSearched-AllDefined vi (v ∷ vs) [] ws h k = elim h [ ]
  AllSearched-AllDefined vi (v ∷ vs) (c ∷ cs) [] h k = elim k [ ]
  AllSearched-AllDefined vi (v ∷ vs) (c ∷ cs) (w ∷ ws) (h, hs) (k, ks) = (
    read_key-Searched v w (get_key vi (get_name v)) c h k,
    AllSearched-AllDefined vi vs cs ws hs ks,
  )

  Defined-Searched :
      (vi : Text) (v w : NamedValue D)
      → Defined vi v w
      → (c : Constant D) × Searched vi (v, true) c × Searched globals c (defined w)
  Defined-Searched vi v w (inl (text, e, s)) = (defined w, rw (e, s) refl, refl)
  Defined-Searched vi v w (inr (n, (text, e, s))) = ((v, true), rw n refl, rw (e, s) refl)

  AllDefined-AllSearched :
      (vi : Text) (vs ws : List (NamedValue D))
      → AllDefined vi vs ws
      → (cs : List (Constant D)) × AllSearched vi (map undefined vs) cs
        × AllSearched globals cs (map defined ws)
  AllDefined-AllSearched vi [] [] h = ([], tt, tt)
  AllDefined-AllSearched vi [] (w ∷ ws) h = elim h [ ]
  AllDefined-AllSearched vi (v ∷ vs) [] h = elim h [ ]
  AllDefined-AllSearched vi (v ∷ vs) (w ∷ ws) (h, hs) =
      let (c, p, q) = Defined-Searched vi v w h in
      let (cs, ps, qs) = AllDefined-AllSearched vi vs ws hs in (c ∷ cs, (p, ps), (q, qs))

  -- Nothing is left in undefConsts.
  none_undefined :
      (cs : List (Constant D)) → any_undefined cs ≡ false → cs ≡ map defined (named_values cs)
  none_undefined [] h = refl
  none_undefined ((v, false) ∷ cs) h = ap (λ ds. (v, false) ∷ ds) (none_undefined cs h)
  none_undefined ((v, true) ∷ cs) h = ground (arith, h)

  all_defined-inv :
      (p : List (Constant D) × Option Thrown) (ws : List (NamedValue D))
      → all_defined p ≡ (ws, none)
      → p ≡ (map defined ws, none)
  all_defined-inv (cs, some e) ws h = ground (arith, h)
  all_defined-inv (cs, none) ws h = elim (Bool-cases (any_undefined cs)) [
    | inl u ↦ ground (arith, h, u)
    | inr u ↦
        let e : named_values cs ≡ ws = ground (arith, h) in
        ap (λ ds. (ds, none)) (none_undefined cs u ∙ ap (map defined) e)
  ]

  named_values-defined : (ws : List (NamedValue D)) → named_values (map defined ws) ≡ ws
  named_values-defined [] = refl
  named_values-defined (w ∷ ws) = ap (λ vs. w ∷ vs) (named_values-defined ws)

  any_undefined-defined : (ws : List (NamedValue D)) → any_undefined (map defined ws) ≡ false
  any_undefined-defined [] = refl
  any_undefined-defined (w ∷ ws) = any_undefined-defined ws

  all_defined-defined : (ws : List (NamedValue D)) → all_defined (map defined ws, none) ≡ (ws, none)
  all_defined-defined ws = rw (named_values-defined ws, any_undefined-defined ws) refl

  search_globals-inv :
      (p : List (Constant D) × Option Thrown) (ds : List (Constant D))
      → search_globals lib get_key p ≡ (ds, none)
      → (cs : List (Constant D)) × (p ≡ (cs, none))
        × (search_config lib get_key globals cs ≡ (ds, none))
  search_globals-inv (cs, some e) ds h = ground (arith, h)
  search_globals-inv (cs, none) ds h = (cs, refl, h)

  -- The constants are set without an exception exactly when each of them is in the section of the
  -- check, or else in the section of the globals, as a text that converts to its new value; the
  -- section of the check comes first.
  pub set_const_from_config_iff :
      (vi : Text) (vs ws : List (NamedValue D))
      → (set_const_from_config lib get_key vi vs ≡ (ws, none)) ↔ AllDefined vi vs ws
  unfolding set_const_from_config
  set_const_from_config_iff vi vs ws =
      let first = search_config lib get_key vi (map undefined vs) in
      (
        λ h.
            let (cs, e, k) =
              search_globals-inv first (map defined ws)
                (all_defined-inv (search_globals lib get_key first) ws h) in
            AllSearched-AllDefined vi vs cs ws
              ((search_config-AllSearched vi (map undefined vs) cs).0 e)
              ((search_config-AllSearched globals cs (map defined ws)).0 k),
        λ h.
            let (cs, p, q) = AllDefined-AllSearched vi vs ws h in
            ap (λ r. all_defined (search_globals lib get_key r))
              ((search_config-AllSearched vi (map undefined vs) cs).1 p)
            ∙ ap all_defined ((search_config-AllSearched globals cs (map defined ws)).1 q)
            ∙ all_defined-defined ws,
      )
