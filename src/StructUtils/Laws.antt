-- ===== src/StructUtils/Laws.antt =====
-- What the typed reads return, in terms of the value that the field holds.
use mathlib.Core.List.{append-nil, append_assoc}
use jwt_verify_lib.Prelude.{
  ℕ, ◌≡◌, ◌≢◌, ◌↔◌, ◌⊎◌, none, Option, refl, Bool, true, false, List, [], ◌∷◌, ◌++◌, some, Bytes,
  if◌then◌else◌, ◌&&◌, arith,
}
use jwt_verify_lib.External.Protobuf.{Protobuf, Kind, number_value, string_value, list_value}
use jwt_verify_lib.StructUtils.{
  ok, wrong_type, is_wrong_type, is_not_positive, get_string, get_uint64, get_boolean, get_struct,
  push_strings, get_string_list,
}

module _ ⦃pb : Protobuf⦄ where
  open pb use {Struct, Value, Double, find, kind, is_negative, to_uint64}

  -- The field holds a string.
  abbrev pub HasString : Struct → Bytes → Bytes → Type 0
  HasString s name t = (v : Value) × (find s name ≡ some v) × (kind v ≡ string_value t)

  -- The field holds a number that is not negative, which converts to `n`.
  abbrev pub HasUint64 : Struct → Bytes → ℕ → Type 0
  HasUint64 s name n =
      (v : Value) × (d : Double) × (find s name ≡ some v)
      × (kind v ≡ number_value d)
      × (is_negative d ≡ false)
      × (n ≡ to_uint64 d)

  abbrev is_string : Kind Struct Value Double → Bool
  is_string (string_value t) = true
  is_string _ = false

  -- Every value of the list is a string.
  abbrev pub all_are_strings : List Value → Bool
  all_are_strings [] = true
  all_are_strings (v ∷ vs) = is_string (kind v) && all_are_strings vs

  -- The strings before the first value that is none.
  abbrev pub leading_strings : List Value → List Bytes
  leading_strings [] = []
  leading_strings (v ∷ vs) = elim (kind v) [ string_value t ↦ t ∷ leading_strings vs | _ ↦ [] ]

  push_strings_lem :
      (vs : List Value) (list : List Bytes)
      → push_strings vs list
        ≡ (if all_are_strings vs then ok else wrong_type, list ++ leading_strings vs)
  unfolding push_strings
  push_strings_lem [] list = ground (arith, append-nil list)
  push_strings_lem (v ∷ vs) list = go (kind v) refl (push_strings_lem vs)
    where
      go :
          (k : Kind Struct Value Double)
          → kind v ≡ k
          → ((l : List Bytes)
              → push_strings vs l
                ≡ (if all_are_strings vs then ok else wrong_type, l ++ leading_strings vs))
          → push_strings (v ∷ vs) list ≡ (
            if all_are_strings (v ∷ vs) then ok else wrong_type,
            list ++ leading_strings (v ∷ vs),
          )
      go (string_value t) e ih =
          ground (arith, ih (list ++ t ∷ []), append_assoc list (t ∷ []) (leading_strings vs))
      go _ e ih = ground (arith, append-nil list)

  -- Reading a list appends the strings before the first value of another kind, and the result
  -- is `OK` exactly if there is no such value.
  pub get_string_list_of_list :
      (s : Struct) (name : Bytes) (list : List Bytes) {v : Value} {vs : List Value}
      → find s name ≡ some v
      → kind v ≡ list_value vs
      → get_string_list s name list
        ≡ (if all_are_strings vs then ok else wrong_type, list ++ leading_strings vs)
  unfolding get_string_list
  get_string_list_of_list s name list {v} {vs} found is_list =
      ground (arith, push_strings_lem vs list)

  pub get_string-eq-ok_iff :
      (s : Struct) (name old t : Bytes) → (get_string s name old ≡ (ok, t)) ↔ HasString s name t
  unfolding get_string
  get_string-eq-ok_iff s name old t = ground arith

  pub get_uint64-eq-ok_iff :
      (s : Struct) (name : Bytes) (old n : ℕ)
      → (get_uint64 s name old ≡ (ok, n)) ↔ HasUint64 s name n
  unfolding get_uint64
  get_uint64-eq-ok_iff s name old n = ground arith

  -- The readers of one value leave the output parameter as it was unless they return `OK`.
  pub failed_reads_keep :
      (s : Struct) (name old_string : Bytes) (old_number : ℕ) (old_flag : Bool)
      (old_struct : Struct)
      → ((get_string s name old_string).0 ≢ ok → (get_string s name old_string).1 ≡ old_string)
        × ((get_uint64 s name old_number).0 ≢ ok → (get_uint64 s name old_number).1 ≡ old_number)
        × ((get_boolean s name old_flag).0 ≢ ok → (get_boolean s name old_flag).1 ≡ old_flag)
        × ((get_struct s name old_struct).0 ≢ ok → (get_struct s name old_struct).1 ≡ old_struct)
  unfolding get_string get_uint64 get_boolean get_struct
  failed_reads_keep s name a b c d = ground arith

  -- A read that accepts a missing field: then the output is as before.
  abbrev pub ReadsString : Struct → Bytes → Bytes → Bytes → Type 0
  ReadsString s name old out = ((find s name ≡ none) × (out ≡ old)) ⊎ HasString s name out

  abbrev pub ReadsUint64 : Struct → Bytes → ℕ → ℕ → Type 0
  ReadsUint64 s name old out = ((find s name ≡ none) × (out ≡ old)) ⊎ HasUint64 s name out

  -- The field is missing, a string or a list of strings, and its strings are appended.
  pub data ReadsStrings (s : Struct) (name : Bytes) (old out : List Bytes) : Type 0 where
    no_field : find s name ≡ none → out ≡ old → ReadsStrings s name old out
    one_string :
        {t : Bytes} → HasString s name t → out ≡ old ++ t ∷ [] → ReadsStrings s name old out
    some_strings :
        {v : Value} {vs : List Value}
        → find s name ≡ some v
        → kind v ≡ list_value vs
        → all_are_strings vs ≡ true
        → out ≡ old ++ leading_strings vs
        → ReadsStrings s name old out

  pub get_string_iff :
      (s : Struct) (name old out : Bytes)
      → ((is_wrong_type (get_string s name old).0 ≡ false) × ((get_string s name old).1 ≡ out))
        ↔ ReadsString s name old out
  unfolding get_string
  get_string_iff s name old out = ground arith

  pub get_uint64_iff :
      (s : Struct) (name : Bytes) (old out : ℕ)
      → ((is_wrong_type (get_uint64 s name old).0 ≡ false)
          × (is_not_positive (get_uint64 s name old).0 ≡ false)
          × ((get_uint64 s name old).1 ≡ out))
        ↔ ReadsUint64 s name old out
  unfolding get_uint64
  get_uint64_iff s name old out = ground arith

  get_string_list_sound :
      (s : Struct) (name : Bytes) (old : List Bytes)
      → is_wrong_type (get_string_list s name old).0 ≡ false
      → ReadsStrings s name old (get_string_list s name old).1
  unfolding get_string_list
  get_string_list_sound s name old h = go (find s name) refl
    where
      of_value :
          (v : Value) (k : Kind Struct Value Double)
          → find s name ≡ some v
          → kind v ≡ k
          → ReadsStrings s name old (get_string_list s name old).1
      of_value v (string_value t) found e = one_string (v, found, e) (ground arith)
      of_value v (list_value vs) found e =
          some_strings found e (ground (arith, push_strings_lem vs old))
            (ground (arith, push_strings_lem vs old))
      of_value v _ found e = ground arith

      go :
          (o : Option Value)
          → find s name ≡ o
          → ReadsStrings s name old (get_string_list s name old).1
      go none e = no_field e (ground arith)
      go (some v) e = of_value v (kind v) e refl

  get_string_list_complete :
      (s : Struct) (name : Bytes) (old out : List Bytes)
      → ReadsStrings s name old out
      → (is_wrong_type (get_string_list s name old).0 ≡ false)
        × ((get_string_list s name old).1 ≡ out)
  unfolding get_string_list
  get_string_list_complete s name old out (no_field e f) = ground arith
  get_string_list_complete s name old out (one_string h f) = ground arith
  get_string_list_complete s name old out (some_strings {vs} e f g k) =
      ground (arith, push_strings_lem vs old)

  pub get_string_list_iff :
      (s : Struct) (name : Bytes) (old out : List Bytes)
      → ((is_wrong_type (get_string_list s name old).0 ≡ false)
          × ((get_string_list s name old).1 ≡ out))
        ↔ ReadsStrings s name old out
  get_string_list_iff s name old out = (
    λ h. rw (← h.1) (get_string_list_sound s name old h.0),
    get_string_list_complete s name old out,
  )
