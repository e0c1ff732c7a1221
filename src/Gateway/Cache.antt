-- ===== src/Gateway/Cache.antt =====
-- tg2sip/gateway.cpp: `Gateway::load_cache`.
use tg2sip_webrtc.Prelude.{List, [], ◌∷◌, ℤ, pos, not, if◌then◌else◌, ◌==◌, text_eq, emplace}
use tg2sip_webrtc.Outside.{Outside, TdObject, search_contacts, get_user, User}
use tg2sip_webrtc.World.{World, M, ◌>>=◌, ◌>>◌, pure, no_meaning, modify, ask_td}
use tg2sip_webrtc.Gateway.Values.{or_empty}

abbrev pub cache_user : User → World → World
cache_user u w = record w {
  username_cache =
      if or_empty u.username == []
      then w.username_cache
      else emplace (or_empty u.username) u.id w.username_cache;
  phone_cache =
      if u.phone_number == [] then w.phone_cache else emplace u.phone_number u.id w.phone_cache;
}

-- The loop over the answers; it returns at the first user without access.
unfoldable pub fill_cache : List TdObject → M (Unit {0})
fill_cache [] = pure tt
fill_cache (TdObject.error code message ∷ rest) = fill_cache rest
fill_cache (TdObject.user u ∷ rest) =
    let more = fill_cache rest in
    if not u.have_access then pure tt else modify (cache_user u) >> more
fill_cache (other ∷ rest) = no_meaning

module _ (o : Outside) where
  -- The requests of `load_cache` are all sent before the first answer is read.
  unfoldable ask_users : List ℤ → M (List TdObject)
  ask_users [] = pure []
  ask_users (id ∷ ids) =
      let rest = ask_users ids in ask_td o (get_user id) >>= λ r. rest >>= λ rs. pure (r ∷ rs)

  unfoldable pub load_cache : M (Unit {0})
  unfolding ask_users fill_cache
  load_cache = do
    response ← ask_td o (search_contacts [] (pos 2147483647))
    elim response [
      | TdObject.error code message ↦ pure tt
      | TdObject.users ids ↦ ask_users ids >>= fill_cache
      | _ ↦ no_meaning
    ]
