-- ===== src/LangGraph/Marks/Threads.antt =====
-- The thread that a session is on.
use llm_middleman.Base.{
  ◌≡◌, refl, inl, inr, Bool, false, Option, none, some, arith, if◌then◌else◌, Option-cases, Text,
  text_eq, text_eq_refl,
}
use llm_middleman.Base.Dict
use llm_middleman.Base.Dict.{Dict, get-set, get-pop}
use llm_middleman.LangGraph.Marks.{ThreadMap, legacy_map, adopt_thread, thread_id_of}

-- What the moves of a session do to the entry of a key.
get-move :
    (k l j id : Text) (d : Dict Text)
    → Dict.get j (Dict.set k id (Dict.pop l d))
      ≡ (if text_eq j k then some id else if text_eq j l then none else Dict.get j d)
get-move k l j id d = ground (arith, get-set k j id (Dict.pop l d), get-pop l j d)

-- A second move of a session finds nothing to do.
pub adopt_thread-twice :
    (k : Text) (legacy : Option Text) (m : ThreadMap)
    → legacy_map (adopt_thread k legacy (adopt_thread k legacy m))
      ≡ legacy_map (adopt_thread k legacy m)
unfolding adopt_thread
adopt_thread-twice k none m = refl
adopt_thread-twice k (some l) m = elim (Option-cases (Dict.get l (legacy_map m))) [
  | inl e ↦ ground (arith, e)
  | inr (id, e) ↦ ground (arith, e, get-move k l k id (legacy_map m), text_eq_refl k)
]

-- The key that an entry may move from.
abbrev pub is_key : Text → Option Text → Bool
is_key j none = false
is_key j (some l) = text_eq j l

adopt_thread-other :
    (k j : Text) (legacy : Option Text) (m : ThreadMap)
    → text_eq j k ≡ false
    → is_key j legacy ≡ false
    → Dict.get j (legacy_map (adopt_thread k legacy m)) ≡ Dict.get j (legacy_map m)
unfolding adopt_thread
adopt_thread-other k j none m h n = refl
adopt_thread-other k j (some l) m h n = elim (Option-cases (Dict.get l (legacy_map m))) [
  | inl e ↦ ground (arith, e)
  | inr (id, e) ↦ ground (arith, e, get-move k l j id (legacy_map m))
]

-- A session that has asked for its thread gets the same thread again, whether it gives the legacy key
-- again or not; and every other session but the one of the legacy key keeps its thread.
pub thread_id_of-stable :
    (uuid5 : Text → Text) (entry k j : Text) (legacy : Option Text) (m : ThreadMap)
    → text_eq j k ≡ false
    → is_key j legacy ≡ false
    → let m' = (thread_id_of uuid5 entry k legacy m).1 in
      ((thread_id_of uuid5 entry k legacy m').0 ≡ (thread_id_of uuid5 entry k legacy m).0)
      × ((thread_id_of uuid5 entry k none m').0 ≡ (thread_id_of uuid5 entry k legacy m).0)
      × ((thread_id_of uuid5 entry j none m').0 ≡ (thread_id_of uuid5 entry j none m).0)
unfolding thread_id_of
thread_id_of-stable uuid5 entry k j legacy m h n =
    (rw (adopt_thread-twice k legacy m) refl, refl, rw (adopt_thread-other k j legacy m h n) refl)
