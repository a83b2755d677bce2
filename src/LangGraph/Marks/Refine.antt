-- ===== src/LangGraph/Marks/Refine.antt =====
-- The pending-resume marks, as a set of threads.
use llm_middleman.Base.{
  ◌≡◌, refl, ap, Bool, true, false, ◌&&◌, Option, none, some, List, [], ◌∷◌, ◌++◌, arith,
  if◌then◌else◌, any, Text, text_eq, text_eq_iff,
}
use llm_middleman.Base.Dict
use llm_middleman.Base.Dict.{Dict, get-set, get-pop, IsDistinct, set-IsDistinct, pop-IsDistinct}
use llm_middleman.LangGraph.Marks.{
  from_keys, persisted_ids, Pending, pending_map, save_if, mark_pending_resume, take_mark, take_if,
}

from_keys-IsDistinct : (ks : List Text) (d : Dict Bool) → IsDistinct d → IsDistinct (from_keys ks d)
unfolding from_keys
from_keys-IsDistinct [] d h = h
from_keys-IsDistinct (k ∷ ks) d h =
    from_keys-IsDistinct ks (Dict.set k true d) (set-IsDistinct k true d h)

abbrev pub has : Text → List Text → Bool
has t ks = any (text_eq t) ks

get-from_keys :
    (ks : List Text) (t : Text) (d : Dict Bool)
    → Dict.get t (from_keys ks d) ≡ (if has t ks then some true else Dict.get t d)
unfolding from_keys
get-from_keys [] t d = refl
get-from_keys (k ∷ ks) t d =
    ground (arith, get-from_keys ks t (Dict.set k true d), get-set k t true d)

abbrev is_true : Option Bool → Bool
is_true (some true) = true
is_true _ = false

has-persisted_ids :
    (d : Dict Bool) (t : Text) → IsDistinct d → has t (persisted_ids d) ≡ is_true (Dict.get t d)
unfolding persisted_ids Dict.get
has-persisted_ids [] t h = refl
has-persisted_ids ((k, true) ∷ d) t h = ground (arith, has-persisted_ids d t h.1)
has-persisted_ids ((k, false) ∷ d) t h =
    ground (arith, text_eq_iff t k, has-persisted_ids d t h.1, h.0)

-- What happens to the marks: a turn ends in an interrupt, the next turn of a thread takes the mark,
-- Home Assistant restarts.
pub data Event : Type 0 where
  interrupted : Text → Event
  taken : Text → Event
  restarted : Event

abbrev pub restart : Pending → Pending
restart p = record p { marks = none }

-- The specification: a set of threads. A restart keeps those of a persisted scope.
abbrev pub Waiting : Type 0
Waiting = Text → Bool

abbrev pub spec_step : Waiting → Event → Waiting → List Bool × Waiting
spec_step scope (interrupted t) w = ([], λ u. if text_eq u t then true else w u)
spec_step scope (taken t) w = (w t ∷ [], λ u. if text_eq u t then false else w u)
spec_step scope restarted w = ([], λ u. w u && scope u)

abbrev pub step : Waiting → Event → Pending → List Bool × Pending
step scope (interrupted t) p = ([], mark_pending_resume t (scope t) p)
step scope (taken t) p = ((take_mark t p).0 ∷ [], (take_mark t p).1)
step scope restarted p = ([], restart p)

-- The answers to the events, in their order, and the state behind them.
unfoldable pub run_all {ℓ} :
    {S : Type ℓ} → (Event → S → List Bool × S) → List Event → S → List Bool × S
run_all turn [] s = ([], s)
run_all turn (e ∷ es) s =
    let (answers, s') = turn e s in let (later, s'') = run_all turn es s' in (answers ++ later, s'')

-- The marks in memory are the set, each with its scope; those in the store are the ones of the set
-- that have a persisted scope.
abbrev pub Represents : Waiting → Pending → Waiting → Type 0
Represents scope p w =
    IsDistinct (pending_map p)
    × ((t : Text) → Dict.get t (pending_map p) ≡ (if w t then some (scope t) else none))
    × ((t : Text) → has t p.stored ≡ (w t && scope t))

save_if-Represents :
    (scope : Waiting) (b : Bool) (d : Dict Bool) (p : Pending) (w : Waiting)
    → IsDistinct d
    → ((t : Text) → Dict.get t d ≡ (if w t then some (scope t) else none))
    → (b ≡ false → (t : Text) → has t p.stored ≡ (w t && scope t))
    → Represents scope (save_if b d p) w
save_if-Represents scope true d p w h g s =
    (h, g, λ t. ground (arith, has-persisted_ids d t h, g t))
save_if-Represents scope false d p w h g s = (h, g, s refl)

-- What is in the scope of a thread holds of the threads that are equal to it.
scope_eq : (scope : Waiting) (t k : Text) → text_eq t k ≡ true → scope t ≡ scope k
scope_eq scope t k e = ap scope ((text_eq_iff t k).0 e)

mark-Represents :
    (scope : Waiting) (p : Pending) (w : Waiting) (k : Text)
    → Represents scope p w
    → Represents scope (step scope (interrupted k) p).1 (spec_step scope (interrupted k) w).1
unfolding mark_pending_resume
mark-Represents scope p w k (d, g, s) =
    save_if-Represents scope (scope k) (Dict.set k (scope k) (pending_map p)) p
      (spec_step scope (interrupted k) w).1 (set-IsDistinct k (scope k) (pending_map p) d)
      (λ t. ground (arith, get-set k t (scope k) (pending_map p), g t, scope_eq scope t k))
      (λ f t. ground (arith, s t, f, scope_eq scope t k))

take_if-Represents :
    (scope : Waiting) (p : Pending) (w : Waiting) (k : Text) (o : Option Bool)
    → Dict.get k (pending_map p) ≡ o
    → Represents scope p w
    → ((take_if k o p).0 ≡ w k) × Represents scope (take_if k o p).1 (spec_step scope (taken k) w).1
take_if-Represents scope p w k none e (d, g, s) = (
  ground (arith, e, g k),
  (
    d,
    λ t. ground (arith, e, g t, g k, scope_eq w t k),
    λ t. ground (arith, s t, e, g k, scope_eq w t k),
  ),
)
take_if-Represents scope p w k (some b) e (d, g, s) = (
  ground (arith, e, g k),
  save_if-Represents scope b (Dict.pop k (pending_map p)) p (spec_step scope (taken k) w).1
      (pop-IsDistinct k (pending_map p) d) (λ t. ground (arith, get-pop k t (pending_map p), g t))
      (λ f t. ground (arith, s t, f, e, g k, scope_eq scope t k)),
)

take-Represents :
    (scope : Waiting) (p : Pending) (w : Waiting) (k : Text)
    → Represents scope p w
    → ((step scope (taken k) p).0 ≡ (spec_step scope (taken k) w).0)
      × Represents scope (step scope (taken k) p).1 (spec_step scope (taken k) w).1
unfolding take_mark
take-Represents scope p w k h =
    let (answer, kept) = take_if-Represents scope p w k (Dict.get k (pending_map p)) refl h in
    (rw answer refl, kept)

restart-Represents :
    (scope : Waiting) (p : Pending) (w : Waiting)
    → Represents scope p w
    → Represents scope (restart p) (spec_step scope restarted w).1
unfolding Dict.get
restart-Represents scope p w (d, g, s) = (
  from_keys-IsDistinct p.stored [] tt,
  λ t. ground (arith, get-from_keys p.stored t [], s t),
  λ t. ground (arith, s t),
)

step-Represents :
    (scope : Waiting) (p : Pending) (w : Waiting) (e : Event)
    → Represents scope p w
    → ((step scope e p).0 ≡ (spec_step scope e w).0)
      × Represents scope (step scope e p).1 (spec_step scope e w).1
step-Represents scope p w (interrupted k) h = (refl, mark-Represents scope p w k h)
step-Represents scope p w (taken k) h = take-Represents scope p w k h
step-Represents scope p w restarted h = (refl, restart-Represents scope p w h)

-- On any history of interrupts, takes and restarts, in which each thread is marked with the
-- persistence of its scope, the marks answer as the set of threads does, if they represent it at
-- the start; and they represent it at the end.
pub run-refines :
    (scope : Waiting) (es : List Event) (p : Pending) (w : Waiting)
    → Represents scope p w
    → ((run_all (step scope) es p).0 ≡ (run_all (spec_step scope) es w).0)
      × Represents scope (run_all (step scope) es p).1 (run_all (spec_step scope) es w).1
unfolding run_all
run-refines scope [] p w h = (refl, h)
run-refines scope (e ∷ es) p w h =
    let (now, h') = step-Represents scope p w e h in
    let (later, h'') = run-refines scope es (step scope e p).1 (spec_step scope e w).1 h' in
    (rw (now, later) refl, h'')
