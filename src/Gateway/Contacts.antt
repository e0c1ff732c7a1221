-- ===== src/Gateway/Contacts.antt =====
-- tg2sip/gateway.cpp: `load_cache`: which users the caches know afterwards.
use tg2sip_webrtc.Prelude.{
  ◌≡◌, ◌≢◌, refl, List, [], ◌∷◌, Option, none, some, Text, ℤ, not, if◌then◌else◌, ◌==◌, ==_iff,
  text_eq, lookup, or_else, lookup-emplace, arith, Bool-cases, inl, inr,
}
use tg2sip_webrtc.Outside.{TdObject, User}
use tg2sip_webrtc.World.{World, done}
use tg2sip_webrtc.Gateway.Values.{or_empty}
use tg2sip_webrtc.Gateway.Cache.{cache_user, fill_cache}

-- TDLib's answers to `getUser`: a user or an error each.
unfoldable pub AreUserAnswers : List TdObject → Type 0
AreUserAnswers [] = Unit {0}
AreUserAnswers (TdObject.error code message ∷ rest) = AreUserAnswers rest
AreUserAnswers (TdObject.user u ∷ rest) = AreUserAnswers rest
AreUserAnswers (other ∷ rest) = ⊥

-- The user ids that the answers give for a user name, up to the first user without access.
unfoldable pub id_of_name : Text → List TdObject → Option ℤ
id_of_name name (TdObject.user u ∷ rest) =
    let later = id_of_name name rest in
    if not u.have_access then none else if or_empty u.username == name then some u.id else later
id_of_name name (other ∷ rest) = id_of_name name rest
id_of_name name [] = none

-- Likewise for a phone number.
unfoldable pub id_of_phone : Text → List TdObject → Option ℤ
id_of_phone phone (TdObject.user u ∷ rest) =
    let later = id_of_phone phone rest in
    if not u.have_access then none else if u.phone_number == phone then some u.id else later
id_of_phone phone (other ∷ rest) = id_of_phone phone rest
id_of_phone phone [] = none

lookup-cache_name :
    (u : User) (name : Text) (w : World)
    → name ≢ []
    → lookup name (cache_user u w).username_cache ≡ (
        if or_empty u.username == name
        then or_else (lookup name w.username_cache) (some u.id)
        else lookup name w.username_cache)
lookup-cache_name u name w ne = ground (
  arith,
  ==_iff (or_empty u.username) [],
  ==_iff (or_empty u.username) name,
  lookup-emplace (or_empty u.username) name u.id w.username_cache,
)

lookup-cache_phone :
    (u : User) (phone : Text) (w : World)
    → phone ≢ []
    → lookup phone (cache_user u w).phone_cache ≡ (
        if u.phone_number == phone
        then or_else (lookup phone w.phone_cache) (some u.id)
        else lookup phone w.phone_cache)
lookup-cache_phone u phone w ne = ground (
  arith,
  ==_iff u.phone_number [],
  ==_iff u.phone_number phone,
  lookup-emplace u.phone_number phone u.id w.phone_cache,
)

-- Reading the answers succeeds. A name, or a phone number, that the cache had keeps its user, and
-- any other is cached for the first user of the answers that has it; but from the first user
-- without access on, the answers count for nothing.
pub fill_cache_lem :
    (answers : List TdObject) (name phone : Text) (w : World)
    → AreUserAnswers answers
    → name ≢ []
    → phone ≢ []
    → (w' : World) × (fill_cache answers w ≡ done tt w')
      × (w' ≡ record w { username_cache = w'.username_cache; phone_cache = w'.phone_cache })
      × (lookup name w'.username_cache
          ≡ or_else (lookup name w.username_cache) (id_of_name name answers))
      × (lookup phone w'.phone_cache
          ≡ or_else (lookup phone w.phone_cache) (id_of_phone phone answers))
unfolding fill_cache id_of_name id_of_phone AreUserAnswers
fill_cache_lem [] name phone w a n p = (w, refl, refl, ground arith, ground arith)
fill_cache_lem (TdObject.error code message ∷ rest) name phone w a n p =
    fill_cache_lem rest name phone w a n p
fill_cache_lem (TdObject.user u ∷ rest) name phone w a n p = elim (Bool-cases u.have_access) [
  | inl access ↦
      let (w', run, same, named, phoned) = fill_cache_lem rest name phone (cache_user u w) a n p in
      (
        w',
        rw access run,
        same,
        ground (arith, named, lookup-cache_name u name w n),
        ground (arith, phoned, lookup-cache_phone u phone w p),
      )
  | inr none_there ↦ (w, rw none_there, refl, ground arith, ground arith)
]
fill_cache_lem (_ ∷ rest) name phone w a n p = absurd a
