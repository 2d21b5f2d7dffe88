-- ===== src/Core/Auth/Choices.antt =====
-- What the validation of core/auth.go accepts, and the codes of what it refuses.
use zju_portal_core.Base.{
  ◌≤◌, ◌≡◌, ◌≢◌, refl, ◌↔◌, ◌⊎◌, inl, inr, String, true, false, none, some, List, [], ◌∷◌, map,
  string_eq, eq_iff, length, arith, nat_beq, Option-cases,
}
use zju_portal_core.Core.Error.{
  Error, auth_challenge_invalid, auth_response_invalid, error_code_of, wrap_error,
}
use zju_portal_core.Core.Auth.{
  AuthChoice, AuthChallenge, AuthResponse, max_auth_challenge_image_size, kind_valid, is_select,
  contains, validate_choices, validate_challenge, has_choice, validate_response,
}

abbrev ids : List AuthChoice → List String
ids cs = map (λ c. c.id) cs

-- No entry is the empty text.
abbrev pub NonEmpty : List String → Type 0
NonEmpty [] = Unit {0}
NonEmpty (x ∷ xs) = (x ≢ "") × NonEmpty xs

-- No two entries are equal.
abbrev pub Distinct : List String → Type 0
Distinct [] = Unit {0}
Distinct (x ∷ xs) = (contains xs x ≡ false) × Distinct xs

abbrev Apart : List String → List String → Type 0
Apart seen [] = Unit {0}
Apart seen (x ∷ xs) = (contains seen x ≡ false) × Apart seen xs

Apart-cons :
    (y : String) (seen xs : List String)
    → Apart (y ∷ seen) xs ↔ ((contains xs y ≡ false) × Apart seen xs)
Apart-cons y seen [] = (λ h. (refl, tt), λ h. tt)
Apart-cons y seen (x ∷ xs) = (
  λ h. let (p, q) = (Apart-cons y seen xs).0 h.1 in ground (arith, eq_iff y x, eq_iff x y),
  λ h.
      let q = (Apart-cons y seen xs).1 (ground (arith), h.1.1) in
      ground (arith, eq_iff y x, eq_iff x y),
)

Apart-nil : (xs : List String) → Apart [] xs
Apart-nil [] = tt
Apart-nil (x ∷ xs) = (refl, Apart-nil xs)

validate_choices_iff :
    (seen : List String) (cs : List AuthChoice)
    → (validate_choices seen cs ≡ none)
      ↔ (NonEmpty (ids cs) × Distinct (ids cs) × Apart seen (ids cs))
unfolding validate_choices
validate_choices_iff seen [] = (λ h. (tt, tt, tt), λ h. refl)
validate_choices_iff seen (c ∷ cs) = (
  λ h.
      let ih = (validate_choices_iff (c.id ∷ seen) cs).0 (ground (arith, eq_iff c.id "")) in
      let ap = (Apart-cons c.id seen (ids cs)).0 ih.2 in ground (arith, eq_iff c.id ""),
  λ h.
      let ap = (Apart-cons c.id seen (ids cs)).1 (h.1.0, h.2.1) in
      let ih = (validate_choices_iff (c.id ∷ seen) cs).1 (h.0.1, h.1.1, ap) in
      ground (arith, eq_iff c.id ""),
)

-- What a challenge promises its handler.
pub record IsChallenge (c : AuthChallenge) : Type 0 where
  pub has_id : c.id ≢ ""
  pub has_kind : kind_valid c.kind ≡ true
  pub image_fits : length c.image ≤ max_auth_challenge_image_size
  pub named : NonEmpty (ids c.choices)
  pub distinct : Distinct (ids c.choices)
  pub selectable : is_select c.kind ≡ true → c.choices ≢ []

-- The answers that fit a challenge.
pub record Answers (r : AuthResponse) (c : AuthChallenge) : Type 0 where
  pub same_id : r.challenge_id ≡ c.id
  pub may_skip : r.skip ≡ true → c.allow_skip ≡ true
  pub chosen :
      is_select c.kind ≡ true → (r.choice_id ≢ "") × (has_choice c.choices r.choice_id ≡ true)
  pub answered : is_select c.kind ≡ false → r.value ≢ ""

validate_choices-nil_iff :
    (cs : List AuthChoice)
    → (validate_choices [] cs ≡ none) ↔ (NonEmpty (ids cs) × Distinct (ids cs))
validate_choices-nil_iff cs = (
  λ h. let v = (validate_choices_iff [] cs).0 h in (v.0, v.1),
  λ h. (validate_choices_iff [] cs).1 (h.0, h.1, Apart-nil (ids cs)),
)

choices_empty : (cs : List AuthChoice) → (nat_beq (length cs) 0 ≡ true) ↔ (cs ≡ [])
choices_empty [] = ground arith
choices_empty (c ∷ cs) = ground arith

-- `AuthChallenge.Validate` returns no error for exactly the challenges that have an ID, a known
-- kind, an image within the limit, choices with distinct non-empty IDs, and some choice if one is
-- to be selected.
pub validate_challenge_iff : (c : AuthChallenge) → (validate_challenge c ≡ none) ↔ IsChallenge c
unfolding validate_challenge
validate_challenge_iff c = (
  λ h.
      let v = (validate_choices-nil_iff c.choices).0 (ground (arith, eq_iff c.id "")) in
      record {
        has_id = ground (arith, eq_iff c.id "");
        has_kind = ground (arith, eq_iff c.id "");
        image_fits = ground (arith, eq_iff c.id "");
        named = v.0;
        distinct = v.1;
        selectable = ground (arith, eq_iff c.id "", choices_empty c.choices);
      },
  λ h.
      let v = (validate_choices-nil_iff c.choices).1 (h.named, h.distinct) in
      ground (arith, eq_iff c.id "", choices_empty c.choices),
)

-- `AuthResponse.Validate` returns no error for exactly the answers that fit a valid challenge: the
-- same ID, a skip only where it is allowed, one of the choices where one is to be selected, and a
-- value that is not empty elsewhere, also beside a skip.
pub validate_response_iff :
    (r : AuthResponse) (c : AuthChallenge)
    → (validate_response r c ≡ none) ↔ (IsChallenge c × Answers r c)
unfolding validate_response
validate_response_iff r c = (
  λ h. (
    (validate_challenge_iff c).0 (ground arith),
    ground (arith, eq_iff r.challenge_id c.id, eq_iff r.choice_id "", eq_iff r.value ""),
  ),
  λ h.
      let v = (validate_challenge_iff c).1 h.0 in
      ground (arith, eq_iff r.challenge_id c.id, eq_iff r.choice_id "", eq_iff r.value ""),
)

choices_code :
    (seen : List String) (cs : List AuthChoice) (e : Error)
    → validate_choices seen cs ≡ some e
    → error_code_of (some e) ≡ auth_challenge_invalid
unfolding validate_choices wrap_error error_code_of
choices_code seen [] e h = cc
choices_code seen (c ∷ cs) e h = ground (arith, choices_code (c.id ∷ seen) cs e)

-- Every error of `AuthChallenge.Validate` has the code AUTH_CHALLENGE_INVALID.
challenge_code :
    (c : AuthChallenge) (e : Error)
    → validate_challenge c ≡ some e
    → error_code_of (some e) ≡ auth_challenge_invalid
unfolding validate_challenge wrap_error error_code_of
challenge_code c e h = ground (arith, choices_code [] c.choices e)

response_code :
    (r : AuthResponse) (c : AuthChallenge) (e : Error)
    → validate_response r c ≡ some e
    → validate_challenge c ≡ none
    → error_code_of (some e) ≡ auth_response_invalid
unfolding validate_response wrap_error error_code_of
response_code r c e h ok = ground arith

-- An error of `AuthResponse.Validate` has the code AUTH_CHALLENGE_INVALID if the challenge itself
-- is not valid, and AUTH_RESPONSE_INVALID if it is.
pub validate_response_code :
    (r : AuthResponse) (c : AuthChallenge) (e : Error)
    → validate_response r c ≡ some e
    → ((validate_challenge c ≡ some e) × (error_code_of (some e) ≡ auth_challenge_invalid))
      ⊎ (IsChallenge c × (error_code_of (some e) ≡ auth_response_invalid))
unfolding validate_response
validate_response_code r c e h = elim (Option-cases (validate_challenge c)) [
  | inl ok ↦ inr ((validate_challenge_iff c).0 ok, response_code r c e h ok)
  | inr (x, bad) ↦ inl (ground (arith, challenge_code c e))
]
