-- ===== src/Tests/Dify.antt =====
-- The Dify adapter at concrete inputs.
use llm_middleman.Base.{
  ◌≡◌, refl, true, false, none, some, [], ◌∷◌, arith, codes, text_eq, starts_with,
}
use llm_middleman.Base.Dict
use llm_middleman.Dify.{Maps, lookup, new_stripper, strip, feed}
use llm_middleman.Dify.Sessions.{session, lookup-adopts}
use llm_middleman.Dify.Think.{strip-feed}

abbrev maps : Maps
maps = record { mem = []; persisted = none; stored = (codes "kitchen", codes "c1") ∷ [] }

lookup-adopts_example :
    ((lookup (codes "a") true (some (codes "kitchen")) maps).0 ≡ some (codes "c1"))
    × (session (codes "a") true (lookup (codes "a") true (some (codes "kitchen")) maps).1
        ≡ some (codes "c1"))
    × ((lookup
          (codes "b")
          true
          (some (codes "kitchen"))
          (lookup (codes "a") true (some (codes "kitchen")) maps).1).0
        ≡ none)
unfolding text_eq Dict.get
lookup-adopts_example =
    lookup-adopts (codes "a") (codes "b") (codes "kitchen") (codes "c1") maps refl refl refl refl
      refl

strip-feed_example :
    strip 100 (codes "Hi <think>no</think>you <th") false
    ≡ feed new_stripper (codes "Hi <think>no</think>you <th")
strip-feed_example = strip-feed 100 new_stripper (codes "Hi <think>no</think>you <th") (omega arith)

feed_run :
    feed new_stripper (codes "Hi <think>no</think>you <th")
    ≡ (codes "Hi you ", record { buf = codes "<th"; in_think = false })
unfolding feed text_eq starts_with
feed_run = refl
