-- ===== src/Gateway/Extension.antt =====
-- tg2sip/gateway.cpp: `AcceptIncomingSip`: which extensions are dialled, and how.
use tg2sip_webrtc.Prelude.{
  ℕ, ◌<◌, ◌^◌, ◌≡◌, ◌≢◌, refl, sym, ◌∙◌, ◌↔◌, ◌⊎◌, inl, inr, [], ◌∷◌, ◌++◌, none, some, Text, text,
  pos, Bool, true, false, ◌&&◌, ltb, ◌==◌, nat_eq, text_eq, length, take, drop, get_or,
  if◌then◌else◌, Bool-cases, arith,
}
use tg2sip_webrtc.Utils.{Parsed, is_digits, stol, to_string, number, invalid_argument, out_of_range}
use tg2sip_webrtc.Utils.Decimal.{stol-to_string}
use tg2sip_webrtc.Gateway.Context.{Context}
use tg2sip_webrtc.Gateway.Values.{read_extension}

-- The three kinds of extension, each with the context in which it is dialled.
abbrev ByUsername : Text → Context → Context → Type 0
ByUsername ext ctx ctx' =
    (name : Text) × (name ≢ [])
    × (ext ≡ text "tg#" ++ name)
    × (ctx' ≡ record ctx { ext_username = name })

abbrev ByPhone : Text → Context → Context → Type 0
ByPhone ext ctx ctx' =
    (phone : Text) × (phone ≢ [])
    × (is_digits phone ≡ true)
    × (ext ≡ b'+' ∷ phone)
    × (ctx' ≡ record ctx { ext_phone = phone })

abbrev ById : Text → Context → Context → Type 0
ById ext ctx ctx' =
    (n : ℕ) × (is_digits ext ≡ true)
    × (stol ext ≡ number n)
    × (ctx' ≡ record ctx { user_id = pos n })

abbrev username_test : Text → Bool
username_test ext = ltb 3 (length ext) && take 3 ext == text "tg#"

abbrev phone_test : Text → Bool
phone_test ext = ltb 1 (length ext) && get_or ext 0 0 == b'+' && is_digits (drop 1 ext)

username_test_sound :
    (ext : Text) → username_test ext ≡ true → (drop 3 ext ≢ []) × (ext ≡ text "tg#" ++ drop 3 ext)
username_test_sound [] h = ground arith
username_test_sound (a ∷ []) h = ground arith
username_test_sound (a ∷ b ∷ []) h = ground arith
username_test_sound (a ∷ b ∷ c ∷ []) h = ground arith
username_test_sound (a ∷ b ∷ c ∷ d ∷ s) h = ground arith

username_test_complete : (name : Text) → name ≢ [] → username_test (text "tg#" ++ name) ≡ true
username_test_complete [] h = absurd (h refl)
username_test_complete (c ∷ s) h = ground arith

phone_test_sound :
    (ext : Text)
    → phone_test ext ≡ true
    → (drop 1 ext ≢ []) × (is_digits (drop 1 ext) ≡ true) × (ext ≡ b'+' ∷ drop 1 ext)
phone_test_sound [] h = ground arith
phone_test_sound (a ∷ []) h = ground arith
phone_test_sound (a ∷ b ∷ s) h = ground arith

phone_test_complete :
    (phone : Text)
    → phone ≢ []
    → is_digits phone ≡ true
    → (username_test (b'+' ∷ phone) ≡ false) × (phone_test (b'+' ∷ phone) ≡ true)
phone_test_complete [] h d = absurd (h refl)
phone_test_complete (a ∷ []) h d = ground arith
phone_test_complete (a ∷ b ∷ []) h d = ground arith
phone_test_complete (a ∷ b ∷ c ∷ s) h d = ground arith

digits_are_no_other :
    (ext : Text) → is_digits ext ≡ true → (username_test ext ≡ false) × (phone_test ext ≡ false)
unfolding is_digits
digits_are_no_other [] d = (refl, refl)
digits_are_no_other (a ∷ []) d = ground arith
digits_are_no_other (a ∷ b ∷ []) d = ground arith
digits_are_no_other (a ∷ b ∷ c ∷ []) d = ground arith
digits_are_no_other (a ∷ b ∷ c ∷ e ∷ s) d = ground arith

Parsed-cases :
    (v : Parsed) → ((n : ℕ) × (v ≡ number n)) ⊎ (v ≡ invalid_argument) ⊎ (v ≡ out_of_range)
Parsed-cases (number n) = inl (n, refl)
Parsed-cases invalid_argument = inr (inl refl)
Parsed-cases out_of_range = inr (inr refl)

username_case :
    (ext : Text) (ctx : Context)
    → username_test ext ≡ true
    → read_extension ext ctx ≡ some (record ctx { ext_username = drop 3 ext })
unfolding read_extension
username_case ext ctx h = rw (h)

phone_case :
    (ext : Text) (ctx : Context)
    → username_test ext ≡ false
    → phone_test ext ≡ true
    → read_extension ext ctx ≡ some (record ctx { ext_phone = drop 1 ext })
unfolding read_extension
phone_case ext ctx h p = rw (h, p)

id_case :
    (ext : Text) (ctx : Context) (n : ℕ)
    → is_digits ext ≡ true
    → stol ext ≡ number n
    → read_extension ext ctx ≡ some (record ctx { user_id = pos n })
unfolding read_extension
id_case ext ctx n d e = let (h, p) = digits_are_no_other ext d in rw (h, p, d, e)

no_case :
    (ext : Text) (ctx ctx' : Context)
    → username_test ext ≡ false
    → phone_test ext ≡ false
    → read_extension ext ctx ≡ some ctx'
    → (is_digits ext ≡ true) × ((n : ℕ) × (stol ext ≡ number n))
unfolding read_extension
no_case ext ctx ctx' h p e =
    let e' : (if is_digits ext
          then elim (stol ext) [
            | number n ↦ some (record ctx { user_id = pos n })
            | invalid_argument ↦ none
            | out_of_range ↦ none
          ]
          else none)
        ≡ some ctx' =
      (rw (h, p) at e) in
    elim (Bool-cases (is_digits ext)) [
      | inl d ↦ elim (Parsed-cases (stol ext)) [
        | inl found ↦ (d, found)
        | inr (inl x) ↦ ground (arith, rw (d, x) at e')
        | inr (inr x) ↦ ground (arith, rw (d, x) at e')
      ]
      | inr d ↦ ground (arith, rw d at e')
    ]

unpack :
    (ext : Text) (ctx ctx' : Context)
    → read_extension ext ctx ≡ some ctx'
    → ByUsername ext ctx ctx' ⊎ ByPhone ext ctx ctx' ⊎ ById ext ctx ctx'
unpack ext ctx ctx' e = elim (Bool-cases (username_test ext)) [
  | inl h ↦
      let (ne, split) = username_test_sound ext h in
      inl (drop 3 ext, ne, split, ground (arith, sym e ∙ username_case ext ctx h))
  | inr h ↦ elim (Bool-cases (phone_test ext)) [
    | inl p ↦
        let (ne, d, split) = phone_test_sound ext p in
        inr (inl (drop 1 ext, ne, d, split, ground (arith, sym e ∙ phone_case ext ctx h p)))
    | inr p ↦
        let (d, (n, v)) = no_case ext ctx ctx' h p e in
        inr (inr (n, d, v, ground (arith, sym e ∙ id_case ext ctx n d v)))
  ]
]

dialled :
    (ext : Text) (ctx ctx' : Context)
    → ByUsername ext ctx ctx' ⊎ ByPhone ext ctx ctx' ⊎ ById ext ctx ctx'
    → read_extension ext ctx ≡ some ctx'
dialled ext ctx ctx' (inl (name, ne, split, out)) =
    rw (split, out) (username_case (text "tg#" ++ name) ctx (username_test_complete name ne))
dialled ext ctx ctx' (inr (inl (phone, ne, d, split, out))) =
    let (h, p) = phone_test_complete phone ne d in
    rw (split, out) (phone_case (b'+' ∷ phone) ctx h p)
dialled ext ctx ctx' (inr (inr (n, d, v, out))) = rw out (id_case ext ctx n d v)

-- An extension is accepted exactly if it is `tg#` and a non-empty name, `+` and a non-empty string
-- of digits, or a string of digits that `std::stol` reads; the context then holds that user name,
-- phone number or Telegram id, and nothing else of the context changes.
pub read_extension_iff :
    (ext : Text) (ctx ctx' : Context)
    → (read_extension ext ctx ≡ some ctx')
      ↔ (ByUsername ext ctx ctx' ⊎ ByPhone ext ctx ctx' ⊎ ById ext ctx ctx')
read_extension_iff ext ctx ctx' = (unpack ext ctx ctx', dialled ext ctx ctx')

-- A Telegram id below 2^63 written in decimal is an extension that calls the user with that id.
pub read_extension-to_string :
    (n : ℕ) (ctx : Context)
    → n < 2 ^ 63
    → read_extension (to_string (pos n)) ctx ≡ some (record ctx { user_id = pos n })
read_extension-to_string n ctx h =
    let (d, v) = stol-to_string n h in id_case (to_string (pos n)) ctx n d v
