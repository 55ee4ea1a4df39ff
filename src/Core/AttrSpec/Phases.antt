-- ===== src/Core/AttrSpec/Phases.antt =====
-- What the four phases of `validate_attrs` say of sanitised attrs.
use mathlib.Core.Path.{subst}
use engraphy.Base.{
  String, ◌≡◌, refl, ◌∙◌, ap, sym, ◌≢◌, inl, inr, Bool, true, false, ◌||◌, none, some, List, [],
  ◌∷◌, ◌++◌, map, ◌==◌, contains, string_eq, arith, Bool-cases, ==-eq, ==_self, All,
}
use engraphy.Core.Json.{str, Fields, get, keys, has, sorted}
use engraphy.Core.Json.Laws.{contains-keys, contains-sorted}
use engraphy.Core.AttrSpec.{
  Dates, Spec, Condition, reserved_attr_keys, rule_of, value_error, bucket, droppable, entry,
  fst_of, applies, is_known, presence_errors, condition_errors, unknown_errors, value_errors,
  validate_attrs, sanitize_attrs,
}
use engraphy.Core.AttrSpec.Sanitize.{
  has-sanitize_attrs, has_of-sanitize_attrs, get_dropped-sanitize_attrs, get-sanitize_attrs,
  get-bucket-sanitize_attrs, droppable-sanitize_attrs,
}

-- Reserved keys are in no pack's spec.
abbrev pub NoReserved : Spec → Type 0
NoReserved spec = (rule_of spec "addenda" ≡ none) × (rule_of spec "dropped" ≡ none)

-- No key that a condition may require has a bad value.
abbrev pub ConditionsClear : Dates → Spec → Fields → Type 0
ConditionsClear dates spec attrs = All (λ c. droppable dates spec attrs c.key ≡ none) spec.requires

module _ (dates : Dates) (spec : Spec) (attrs : Fields) where
  abbrev present : Fields → String → Bool
  present d k = has k d || has k (bucket d)

  present-sanitize_attrs :
      (k : String) → present attrs k ≡ true → present (sanitize_attrs dates spec attrs).0 k ≡ true
  unfolding has entry
  present-sanitize_attrs k h = elim (Bool-cases (k == "dropped")) [
    | inl same ↦
        let e = ==-eq k "dropped" same in
        ground (
          arith,
          has-sanitize_attrs dates spec attrs,
          get-bucket-sanitize_attrs dates spec attrs k,
          ap has e,
        )
    | inr other ↦
        ground (
          arith,
          get-sanitize_attrs dates spec attrs k,
          get-bucket-sanitize_attrs dates spec attrs k,
        )
  ]

  presence-sanitize_attrs :
      (req : List String)
      → presence_errors req attrs ≡ []
      → presence_errors req (sanitize_attrs dates spec attrs).0 ≡ []
  unfolding presence_errors
  presence-sanitize_attrs [] h = refl
  presence-sanitize_attrs (k ∷ req) h =
      ground (arith, presence-sanitize_attrs req, present-sanitize_attrs k)

  applies-sanitize_attrs :
      (c : Condition)
      → applies c (get c.when_key (sanitize_attrs dates spec attrs).0) ≡ true
      → applies c (get c.when_key attrs) ≡ true
  unfolding applies
  applies-sanitize_attrs c h = elim (Bool-cases (c.when_key == "dropped")) [
    | inl same ↦
        let e = ==-eq c.when_key "dropped" same in
        ground (arith, get_dropped-sanitize_attrs dates spec attrs, ap get e)
    | inr other ↦ ground (arith, get-sanitize_attrs dates spec attrs c.when_key)
  ]

  has_key-sanitize_attrs :
      (k : String)
      → droppable dates spec attrs k ≡ none
      → has k attrs ≡ true
      → has k (sanitize_attrs dates spec attrs).0 ≡ true
  unfolding has
  has_key-sanitize_attrs k good h = elim (Bool-cases (k == "dropped")) [
    | inl same ↦
        let e = ==-eq k "dropped" same in
        ground (arith, has-sanitize_attrs dates spec attrs, ap has e)
    | inr other ↦ ground (arith, get-sanitize_attrs dates spec attrs k)
  ]

  condition-sanitize_attrs :
      (cs : List Condition)
      → All (λ c. droppable dates spec attrs c.key ≡ none) cs
      → condition_errors cs attrs ≡ []
      → condition_errors cs (sanitize_attrs dates spec attrs).0 ≡ []
  unfolding condition_errors
  condition-sanitize_attrs [] clear h = refl
  condition-sanitize_attrs (c ∷ cs) clear h = ground (
    arith,
    condition-sanitize_attrs cs clear.1,
    applies-sanitize_attrs c,
    has_key-sanitize_attrs c.key,
  )

  value-sanitize_attrs :
      NoReserved spec
      → (ks : List String) → value_errors dates spec (sanitize_attrs dates spec attrs).0 ks ≡ []
  unfolding value_errors droppable value_error
  value-sanitize_attrs none_reserved [] = refl
  value-sanitize_attrs none_reserved (k ∷ ks) =
      ground
        (arith, value-sanitize_attrs none_reserved ks, droppable-sanitize_attrs dates spec attrs k)

  unknown-eq-nil :
      (ks : List String)
      → ((k : String)
          → contains ks k ≡ true
          → (is_known (rule_of spec k) || contains reserved_attr_keys k) ≡ true)
      → unknown_errors spec ks ≡ []
  unfolding unknown_errors
  unknown-eq-nil [] h = refl
  unknown-eq-nil (k ∷ ks) h =
      rw (unknown-eq-nil ks (λ j m. h j (ground arith))) (ground (arith, h k, ==_self k))

  known_of_unknown-nil :
      (ks : List String)
      → unknown_errors spec ks ≡ []
      → (k : String) → contains ks k ≡ true
      → (is_known (rule_of spec k) || contains reserved_attr_keys k) ≡ true
  unfolding unknown_errors
  known_of_unknown-nil [] h k m = cc
  known_of_unknown-nil (j ∷ ks) h k m = elim (Bool-cases (contains ks k)) [
    | inl later ↦ known_of_unknown-nil ks (ground arith) k later
    | inr here ↦ ground arith
  ]

  unknown-sanitize_attrs :
      unknown_errors spec (sorted (keys attrs)) ≡ []
      → unknown_errors spec (sorted (keys (sanitize_attrs dates spec attrs).0)) ≡ []
  unknown-sanitize_attrs h = unknown-eq-nil _ λ k m.
      let there =
        has_of-sanitize_attrs dates spec attrs k (rw (contains-sorted, contains-keys) at m) in
      elim (Bool-cases (has k attrs)) [
        | inl old ↦
            known_of_unknown-nil (sorted (keys attrs)) h k (rw (contains-sorted, contains-keys) old)
        | inr new ↦ ground arith
      ]

-- Attrs with no error of presence, of a condition or of an unknown key are accepted once they are
-- sanitised, whatever their values are. The conditions must not require a key whose value is bad.
sanitize_attrs-accepted :
    (dates : Dates) (spec : Spec) (attrs : Fields)
    → NoReserved spec
    → ConditionsClear dates spec attrs
    → presence_errors (sorted (map fst_of spec.required)) attrs ≡ []
    → condition_errors spec.requires attrs ≡ []
    → unknown_errors spec (sorted (keys attrs)) ≡ []
    → validate_attrs dates spec (sanitize_attrs dates spec attrs).0 ≡ []
unfolding validate_attrs
sanitize_attrs-accepted dates spec attrs none_reserved clear p c u =
    let presence = presence-sanitize_attrs dates spec attrs _ p in
    let condition = condition-sanitize_attrs dates spec attrs spec.requires clear c in
    let unknown = unknown-sanitize_attrs dates spec attrs u in
    let value =
      value-sanitize_attrs dates spec attrs none_reserved
        (sorted (keys (sanitize_attrs dates spec attrs).0)) in
    rw (presence, condition, unknown, value) (ground arith)

condition_errors-fire :
    (before after : List Condition) (c : Condition) (attrs : Fields)
    → get c.when_key attrs ≡ some (str c.equals)
    → has c.key attrs ≡ false
    → condition_errors (before ++ c ∷ after) attrs ≢ []
unfolding condition_errors
condition_errors-fire [] after c attrs holds absent =
    rw (holds, absent) (ground (arith, ==_self c.equals))
condition_errors-fire (b ∷ before) after c attrs holds absent =
    ground (arith, condition_errors-fire before after c attrs holds absent)

has_of_none : (k : String) (d : Fields) → get k d ≡ none → has k d ≡ false
unfolding has
has_of_none k d h = ground arith

append-ne-nil : (xs ys zs : List String) → ys ≢ [] → xs ++ (ys ++ zs) ≢ []
append-ne-nil [] [] zs h = λ _. h refl
append-ne-nil [] (y ∷ ys) zs h = λ e. cc e
append-ne-nil (x ∷ xs) ys zs h = λ e. cc e

-- Where a condition holds and requires a key whose value is bad, the quarantine takes that key
-- away, and the sanitised attrs are refused.
pub sanitize_attrs-refused :
    (dates : Dates) (spec : Spec) (attrs : Fields) (before after : List Condition) (c : Condition)
    (e : String)
    → spec.requires ≡ before ++ c ∷ after
    → c.when_key ≢ "dropped"
    → get c.when_key attrs ≡ some (str c.equals)
    → droppable dates spec attrs c.when_key ≡ none
    → c.key ≢ "dropped"
    → droppable dates spec attrs c.key ≡ some e
    → validate_attrs dates spec (sanitize_attrs dates spec attrs).0 ≢ []
unfolding validate_attrs
sanitize_attrs-refused dates spec attrs before after c e listed w holds good k bad =
    append-ne-nil _ (condition_errors spec.requires (sanitize_attrs dates spec attrs).0) _ (
      subst (λ cs. condition_errors cs (sanitize_attrs dates spec attrs).0 ≢ []) (sym listed)
        (condition_errors-fire before after c (sanitize_attrs dates spec attrs).0
          (get-sanitize_attrs dates spec attrs c.when_key w ∙ rw good holds)
          (has_of_none c.key _ (get-sanitize_attrs dates spec attrs c.key k ∙ rw bad refl))))
