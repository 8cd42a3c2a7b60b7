-- ===== src/Connector/Actions/Params.antt =====
-- The parameters of a converted action.
use k8s_inc.Prelude.{
  ℕ, zero, suc, ◌<◌, String, ◌≡◌, refl, sym, ap, ◌∙◌, subst, ◌⊎◌, inl, inr, true, false, Option,
  none, some, List, [], ◌∷◌, arith, ltb, if◌then◌else◌, ltb→lt, Bool-cases, Option-cases, ◌==◌,
  ℕ_eq, String_eq, length, get_elem?, update_at, length-update_at, get_elem?-update_at,
}
use k8s_inc.Prelude.Maps.{lookup, has, IsMap}
use k8s_inc.Prelude.Result.{Result, ok, err, panicked}
use k8s_inc.Connector.Actions.{
  Bytes, BuildError, metadata_not_found, invalid_argument, param_value, Param, Conversions,
  value_to_bytes, store_param, convert_param, store_value, build_params,
}

-- different names have different places
abbrev pub AreApart : List (String × Param) → Type 0
AreApart params =
    (n m : String) (p q : Param)
    → lookup n params ≡ some p
    → lookup m params ≡ some q
    → p.id ≡ q.id
    → n ≡ m

-- the value of a name is at its place
abbrev pub IsPlaced : Conversions → List (String × Param) → List Bytes → String → String → Type 0
IsPlaced conv params res n val =
    (p : Param) × (bytes : Bytes) × (i : ℕ) × (lookup n params ≡ some p)
    × (value_to_bytes conv val p.bitwidth ≡ some bytes)
    × (p.id ≡ suc i)
    × (get_elem? res i ≡ some bytes)

-- What the loop returns from the places it starts with: it keeps their number, places every value,
-- and leaves the places of other names. An error names what was not found or is of a value that
-- does not convert, and a panic is for a place out of range.
abbrev pub Built :
    Conversions
    → String
    → List (String × Param)
    → List (String × String)
    → List Bytes
    → Result BuildError (List Bytes)
    → Type 0
Built conv action_name params raw res (ok res') =
    (length res' ≡ length res)
    × ((n val : String) → lookup n raw ≡ some val → IsPlaced conv params res' n val)
    × ((n : String) (p : Param) (i : ℕ)
        → has n raw ≡ false
        → lookup n params ≡ some p
        → p.id ≡ suc i
        → get_elem? res' i ≡ get_elem? res i)
Built conv action_name params raw res (err e) =
    (n : String) × (val : String) × (lookup n raw ≡ some val)
    × (((lookup n params ≡ none) × (e ≡ metadata_not_found n action_name))
        ⊎ ((p : Param) × (lookup n params ≡ some p)
            × (value_to_bytes conv val p.bitwidth ≡ none)
            × (e ≡ invalid_argument (param_value action_name n))))
Built conv action_name params raw res panicked =
    (n : String) × (p : Param) × (has n raw ≡ true)
    × (lookup n params ≡ some p)
    × ((p.id ≡ 0) ⊎ (length res < p.id))

-- a place that was written holds what was written
get-update :
    (i : ℕ) (bytes : Bytes) (res : List Bytes)
    → i < length res
    → get_elem? (update_at i (λ old. bytes) res) i ≡ some bytes
unfolding update_at
get-update i bytes [] room = absurd (omega (arith, room))
get-update zero bytes (x ∷ res) room = refl
get-update (suc i) bytes (x ∷ res) room = get-update i bytes res (omega (arith, room))

module _ (conv : Conversions) (action_name : String) (params : List (String × Param))
    (apart : AreApart params) where
  Built-step :
      (name val : String) (p : Param) (bytes : Bytes) (i : ℕ) (raw : List (String × String))
      (res : List Bytes)
      → has name raw ≡ false
      → lookup name params ≡ some p
      → value_to_bytes conv val p.bitwidth ≡ some bytes
      → p.id ≡ suc i
      → i < length res
      → (t : Result BuildError (List Bytes))
      → Built conv action_name params raw (update_at i (λ old. bytes) res) t
      → Built conv action_name params ((name, val) ∷ raw) res t
  unfolding lookup
  Built-step name val p bytes i raw res new known conv_is id_is room (ok res')
        (same, placed, kept) =
      (
        same ∙ length-update_at i (λ old. bytes) res,
        (λ n v h. elim (Bool-cases (name == n)) [
          | inl mine ↦
              let at_name : name ≡ n = (String_eq.same_iff name n).0 mine in
              let val_is : val ≡ v = ground (arith, h, mine) in
              (
                p,
                bytes,
                i,
                subst (λ x. lookup x params ≡ some p) at_name known,
                subst (λ x. value_to_bytes conv x p.bitwidth ≡ some bytes) val_is conv_is,
                id_is,
                kept name p i new known id_is ∙ get-update i bytes res room,
              )
          | inr other ↦ placed n v (ground (arith, h, other))
        ]),
        (λ n q j absent at id_j.
            let gone : has n raw ≡ false = ground (arith, absent) in
            let apart_names : (i == j) ≡ false = elim (Bool-cases (i == j)) [
              | inl equal ↦
                  let e : i ≡ j = (ℕ_eq.same_iff i j).0 equal in
                  let names : name ≡ n = apart name n p q known at (id_is ∙ ap suc e ∙ sym id_j) in
                  absurd (ground (arith, absent, names, String_eq.same_iff name n))
              | inr differ ↦ differ
            ] in
            kept n q j gone at id_j
            ∙ get_elem?-update_at i j (λ old. bytes) res
            ∙ rw apart_names refl),
      )
  Built-step name val p bytes i raw res new known conv_is id_is room (err e) (n, v, at, why) =
      (n, v, ground (arith, at, new, String_eq.same_iff name n), why)
  Built-step name val p bytes i raw res new known conv_is id_is room panicked
        (n, q, there, at, out) =
      (
        n,
        q,
        ground (arith, there),
        at,
        elim out [
          | inl zero_id ↦ inl zero_id
          | inr beyond ↦ inr (omega (arith, beyond, length-update_at i (λ old. bytes) res))
        ],
      )

  store_param-Built :
      (name val : String) (p : Param) (bytes : Bytes) (raw : List (String × String))
      (res : List Bytes) (next : List Bytes → Result BuildError (List Bytes))
      → has name raw ≡ false
      → lookup name params ≡ some p
      → value_to_bytes conv val p.bitwidth ≡ some bytes
      → ((res' : List Bytes) → Built conv action_name params raw res' (next res'))
      → (id : ℕ) → p.id ≡ id
      → Built conv action_name params ((name, val) ∷ raw) res (store_param conv id bytes res next)
  unfolding lookup
  store_param-Built name val p bytes raw res next new known conv_is rest zero id_is =
      (name, p, ground (arith, String_eq.same_iff name name), known, inl id_is)
  store_param-Built name val p bytes raw res next new known conv_is rest (suc i) id_is =
      elim (Bool-cases (ltb i (length res))) [
        | inl room ↦
            subst
              (λ b.
                Built conv action_name params ((name, val) ∷ raw) res
                  (if b then next (update_at i (λ old. bytes) res) else panicked))
              (sym room)
              (Built-step name val p bytes i raw res new known conv_is id_is
                (ltb→lt i (length res) room) (next (update_at i (λ old. bytes) res))
                (rest (update_at i (λ old. bytes) res)))
        | inr full ↦
            subst
              (λ b.
                Built conv action_name params ((name, val) ∷ raw) res
                  (if b then next (update_at i (λ old. bytes) res) else panicked))
              (sym full)
              (
                name,
                p,
                ground (arith, String_eq.same_iff name name),
                known,
                inr (ground (arith, full, id_is)),
              )
      ]

  store_value-Built :
      (name val : String) (p : Param) (raw : List (String × String)) (res : List Bytes)
      (next : List Bytes → Result BuildError (List Bytes))
      → has name raw ≡ false
      → lookup name params ≡ some p
      → ((res' : List Bytes) → Built conv action_name params raw res' (next res'))
      → (o : Option Bytes) → value_to_bytes conv val p.bitwidth ≡ o
      → Built conv action_name params
          ((name, val) ∷ raw)
          res
          (store_value conv action_name name p.id o res next)
  unfolding lookup
  store_value-Built name val p raw res next new known rest none conv_is =
      (name, val, ground (arith, String_eq.same_iff name name), inr (p, known, conv_is, refl))
  store_value-Built name val p raw res next new known rest (some bytes) conv_is =
      store_param-Built name val p bytes raw res next new known conv_is rest p.id refl

  -- The loop over the parameters of a raw action whose names occur once, with a description in which
  -- different names have different places: where it succeeds, every value stands converted at the
  -- place of its name, and the places of no name are as before; it fails only for a name of the raw
  -- action that is not described, or whose value does not convert, with the error that says which;
  -- it panics only where the place of a name of the raw action is 0 or out of range.
  pub build_params-Built :
      (raw : List (String × String)) (res : List Bytes)
      → IsMap raw
      → Built conv action_name params raw res (build_params conv action_name params raw res)
  unfolding build_params lookup
  build_params-Built [] res u =
      (refl, (λ n v h. absurd (ground (arith, h))), (λ n p i absent at id_is. refl))
  build_params-Built ((name, val) ∷ raw) res (new, u) =
      let next : List Bytes → Result BuildError (List Bytes) =
        build_params conv action_name params raw in
      elim (Option-cases (lookup name params)) [
        | inl gone ↦
            subst
              (λ o.
                Built conv action_name params ((name, val) ∷ raw) res
                  (convert_param conv action_name name o val res next))
              (sym gone) (name, val, ground (arith, String_eq.same_iff name name), inl (gone, refl))
        | inr (p, known) ↦
            subst
              (λ o.
                Built conv action_name params ((name, val) ∷ raw) res
                  (convert_param conv action_name name o val res next))
              (sym known)
              (store_value-Built name val p raw res next new known
                (λ res'. build_params-Built raw res' u) (value_to_bytes conv val p.bitwidth) refl)
      ]
