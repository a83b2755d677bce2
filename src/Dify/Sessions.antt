-- ===== src/Dify/Sessions.antt =====
-- The session map of the Dify adapter.
use llm_middleman.Base.{
  ◌≡◌, Bool, true, false, not, ◌&&◌, Option, none, some, arith, if◌then◌else◌, Text, text_eq,
  text_eq_iff, text_eq_refl,
}
use llm_middleman.Base.Dict
use llm_middleman.Base.Dict.{Dict, get-set, get-pop}
use llm_middleman.Dify.{Maps, persisted_map, adopt_legacy, lookup, remember, drop_session}

-- The conversation that a session goes on with, in one of the two scopes.
abbrev pub session : Text → Bool → Maps → Option Text
session key persist m = (lookup key persist none m).0

abbrev pub same : Text → Bool → Text → Bool → Bool
same j q k p = text_eq j k && (if p then q else not q)

-- A conversation that was remembered is found under its session and in its scope, and nowhere else;
-- one that was dropped is not found; and neither changes any other session.
pub session-remember :
    (k id : Text) (p : Bool) (j : Text) (q : Bool) (m : Maps)
    → (session j q (remember k id p m) ≡ (if same j q k p then some id else session j q m))
      × (session j q (drop_session k p m) ≡ (if same j q k p then none else session j q m))
unfolding lookup adopt_legacy remember drop_session
session-remember k id true j true m =
    ground (arith, text_eq_iff j k, get-set k j id (persisted_map m), get-pop k j (persisted_map m))
session-remember k id true j false m = ground arith
session-remember k id false j true m = ground arith
session-remember k id false j false m = ground (arith, get-set k j id m.mem, get-pop k j m.mem)

-- Of two agents of a device with no session of their own, whose keys differ from each other's and,
-- the first one's, from the legacy key, the first that asks takes over the session that the legacy
-- key holds, and goes on with it; the other starts anew.
pub lookup-adopts :
    (a b legacy id : Text) (m : Maps)
    → text_eq b a ≡ false
    → text_eq legacy a ≡ false
    → Dict.get a (persisted_map m) ≡ none
    → Dict.get b (persisted_map m) ≡ none
    → Dict.get legacy (persisted_map m) ≡ some id
    → ((lookup a true (some legacy) m).0 ≡ some id)
      × (session a true (lookup a true (some legacy) m).1 ≡ some id)
      × ((lookup b true (some legacy) (lookup a true (some legacy) m).1).0 ≡ none)
unfolding lookup adopt_legacy
lookup-adopts a b legacy id m ne nl ha hb hl = ground (
  arith,
  text_eq_refl a,
  text_eq_refl legacy,
  get-set a a id (Dict.pop legacy (persisted_map m)),
  get-set a b id (Dict.pop legacy (persisted_map m)),
  get-set a legacy id (Dict.pop legacy (persisted_map m)),
  get-pop legacy b (persisted_map m),
  get-pop legacy legacy (persisted_map m),
)
