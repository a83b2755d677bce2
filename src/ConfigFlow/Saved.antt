-- ===== src/ConfigFlow/Saved.antt =====
-- What a flow of a connection stores at its end, however many forms it showed.
use llm_middleman.Base.{
  ◌≡◌, refl, ◌∙◌, inl, inr, Bool, true, false, not, ◌&&◌, Option, none, some, arith, Bool-cases,
  Option-cases, Text, codes, text_eq,
}
use llm_middleman.Base.Dict
use llm_middleman.Base.Dict.{Dict, IsDistinct, get-set, set-IsDistinct}
use llm_middleman.Json.{Json}
use llm_middleman.Error.{Exc}
use llm_middleman.Fallible.{Result, ok, err}
use llm_middleman.Registry.{Backend}
use llm_middleman.Forms.{keys_of}
use llm_middleman.Forms.Connection.{connection_schema}
use llm_middleman.ConfigFlow.{
  Source, user, reconfigure, normalized, has_base_url, entry_data_of, after_probe, save, probe_with,
  connection_error, connection_step,
}
use llm_middleman.ConfigFlow.Connection.{Stores, saves, passes}
use llm_middleman.ConfigFlow.Flow.{
  user_step, Form, choose, connect, Submission, on_form, Reaches, start, next, route, named,
}
use llm_middleman.ConfigFlow.Entries.{
  is_known, backend_type, get-unknown, no_backend_type, fields_of, IsEntry, merge-IsEntry,
}

module _ (str_of : Json → Text) (error_key : Exc → Text) where
  -- The values as the probe sees them.
  abbrev pub probed : Backend → Submission → Option (Dict Json)
  probed b x = normalized str_of error_key x.validate x.has_match b x.values

  -- An entry of the backend whose form is shown, from the values that the probe passed.
  abbrev pub IsSaved : Submission → Form → Dict Json → Type 0
  IsSaved x choose d = ⊥
  IsSaved x (connect b) d =
      (n : Dict Json) × (probed b x ≡ some n) × (x.validate n ≡ ok tt) × IsEntry b n d

  -- A new connection is not stored twice.
  abbrev pub is_free : Source → Bool → Bool
  is_free user matched = not matched
  is_free reconfigure matched = true

  abbrev pub can_save : Backend → Source → Submission → Option (Dict Json) → Bool
  can_save b source x none = false
  can_save b source x (some n) =
      passes (x.validate n)
      && is_free source (x.has_match (entry_data_of str_of error_key x.validate x.has_match b n))

  -- What stands in the values to be probed: no two of a key, and no type of a backend.
  abbrev IsOwn : Dict Json → Type 0
  IsOwn n = IsDistinct n × (Dict.get backend_type n ≡ none)

  IsOwn-set : (url : Json) (n : Dict Json) → IsOwn n → IsOwn (Dict.set (codes "base_url") url n)
  unfolding text_eq
  IsOwn-set url n (h, e) =
      (set-IsDistinct (codes "base_url") url n h, get-set (codes "base_url") backend_type url n ∙ e)

  save-Stores :
      (b : Backend) (source : Source) (x : Submission) (n : Dict Json)
      → IsOwn n
      → probed b x ≡ some n
      → x.validate n ≡ ok tt
      → Stores
          (IsSaved x (connect b))
          (save str_of error_key x.validate x.has_match b source x.listened n)
  save-Stores b reconfigure x n h p v = (n, p, v, merge-IsEntry b n h.0 h.1)
  save-Stores b user x n h p v =
      elim (Bool-cases (x.has_match (entry_data_of str_of error_key x.validate x.has_match b n))) [
        | inl q ↦ rw q tt
        | inr q ↦ rw q (n, p, v, merge-IsEntry b n h.0 h.1)
      ]

  save-saves :
      (b : Backend) (source : Source) (x : Submission) (n : Dict Json)
      → saves (save str_of error_key x.validate x.has_match b source x.listened n)
        ≡ is_free source (x.has_match (entry_data_of str_of error_key x.validate x.has_match b n))
  save-saves b reconfigure x n = refl
  save-saves b user x n = ground arith

  error-Stores :
      (P : Dict Json → Type 0) (x : Submission) (e : Exc)
      → Stores P (connection_error str_of error_key x.validate x.has_match e)
        × (saves (connection_error str_of error_key x.validate x.has_match e) ≡ false)
  unfolding connection_error
  error-Stores P x e = ground arith

  abbrev AreOwn : Option (Dict Json) → Type 0
  AreOwn none = Unit {0}
  AreOwn (some n) = IsOwn n

  probed-AreOwn : (b : Backend) (x : Submission) → IsOwn x.values → AreOwn (probed b x)
  unfolding normalized
  probed-AreOwn b x h = elim (Bool-cases (has_base_url b)) [
    | inl q ↦ rw q (elim (Option-cases (Dict.get (codes "base_url") x.values)) [
      | inl none_there ↦ rw none_there tt
      | inr (v, there) ↦ rw there (IsOwn-set _ x.values h)
    ])
    | inr q ↦ rw q h
  ]

  after_probe-Stores :
      (b : Backend) (source : Source) (x : Submission) (n : Dict Json) (r : Result (Unit {0}))
      → IsOwn n
      → probed b x ≡ some n
      → x.validate n ≡ r
      → Stores
          (IsSaved x (connect b))
          (after_probe str_of error_key x.validate x.has_match b source x.listened n r)
        × (saves (after_probe str_of error_key x.validate x.has_match b source x.listened n r) ≡ (
            passes r
            && is_free source
                (x.has_match (entry_data_of str_of error_key x.validate x.has_match b n))))
  after_probe-Stores b source x n (ok tt) h p v =
      (save-Stores b source x n h p v, save-saves b source x n)
  after_probe-Stores b source x n (err e) h p v = error-Stores (IsSaved x (connect b)) x e

  probe_with-Stores :
      (b : Backend) (source : Source) (x : Submission) (o : Option (Dict Json))
      → AreOwn o
      → probed b x ≡ o
      → Stores
          (IsSaved x (connect b))
          (probe_with str_of error_key x.validate x.has_match b source x.listened o)
        × (saves (probe_with str_of error_key x.validate x.has_match b source x.listened o)
            ≡ can_save b source x o)
  probe_with-Stores b source x none h p = (tt, refl)
  probe_with-Stores b source x (some n) h p =
      after_probe-Stores b source x n (x.validate n) h p refl

  -- Whether the step of a form stores data.
  abbrev pub form_saves : Source → Form → Submission → Bool
  form_saves source choose x = false
  form_saves source (connect b) x = can_save b source x (probed b x)

  route-Stores :
      (source : Source) (x : Submission) (o : Option Backend)
      → Stores (IsSaved x choose) (route str_of error_key source x o).1
        × (saves (route str_of error_key source x o).1 ≡ false)
  unfolding connection_step
  route-Stores source x none = (tt, refl)
  route-Stores source x (some b) = (tt, refl)

  on_form-Stores :
      (source : Source) (form : Form) (x : Submission)
      → IsDistinct x.values
      → is_known (fields_of form) x.values ≡ true
      → Stores (IsSaved x form) (on_form str_of error_key source form x).1
        × (saves (on_form str_of error_key source form x).1 ≡ form_saves source form x)
  unfolding on_form user_step connection_step
  on_form-Stores source choose x h k =
      route-Stores source x (named (Dict.get backend_type x.values))
  on_form-Stores source (connect b) x h k =
      let own : IsOwn x.values = (
        h,
        get-unknown (keys_of (connection_schema b)) backend_type x.values (no_backend_type b) k,
      ) in
      probe_with-Stores b source x (probed b x) (probed-AreOwn b x own) refl

  -- The form of a backend stays until the end.
  abbrev pub Keeps : Form → Form → Type 0
  Keeps choose form = Unit
  Keeps (connect b) form = form ≡ connect b

  Reaches-Keeps :
      (source : Source) (first : Form) {form : Form}
      → Reaches str_of error_key source first form
      → Keeps first form
  unfolding on_form
  Reaches-Keeps source choose r = tt
  Reaches-Keeps source (connect b) start = refl
  Reaches-Keeps source (connect b) (next r x) = rw (Reaches-Keeps source (connect b) r) refl

  -- However many forms a flow showed, it stores data just if the form of a backend is shown, the
  -- values have a URL where it is due, the probe of that moment passes with them and a new
  -- connection is not there already. What it stores are the values that passed, behind the type of
  -- the backend whose form is shown; and a flow that started at the form of a backend, as a
  -- reconfiguration does, still shows it. The values have keys of the form that is shown, none
  -- twice.
  pub flow-Stores :
      (source : Source) (first : Form) {form : Form}
      → Reaches str_of error_key source first form
      → (x : Submission) → IsDistinct x.values
      → is_known (fields_of form) x.values ≡ true
      → Keeps first form
        × Stores (IsSaved x form) (on_form str_of error_key source form x).1
        × (saves (on_form str_of error_key source form x).1 ≡ form_saves source form x)
  flow-Stores source first {form} r x h k =
      let (stored, stores) = on_form-Stores source form x h k in
      (Reaches-Keeps source first r, stored, stores)
