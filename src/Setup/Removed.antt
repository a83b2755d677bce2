-- ===== src/Setup/Removed.antt =====
-- What the removal of an entry deletes: the files that its adapter opens, and no others.
use llm_middleman.Base.{
  ℕ, ◌≡◌, refl, ap, ◌∙◌, Bool, true, false, not, ◌&&◌, ◌||◌, none, List, [], ◌∷◌, ◌++◌, arith, leb,
  ◌==◌, if◌then◌else◌, is_empty, all, Text, codes, text_eq, text_eq_iff,
}
use llm_middleman.Base.Dict
use llm_middleman.Base.Dict.{Dict, get-set}
use llm_middleman.Json.{Json, str}
use llm_middleman.Fallible.{ok}
use llm_middleman.Url.{text_or}
use llm_middleman.Registry.{Backend, langgraph, dify}
use llm_middleman.ConfigFlow.Connection.{has_key, get-without_keys}
use llm_middleman.Setup.{SetupResult, setup_entry, loaded}
use llm_middleman.LangGraph.Request.{entry_key_of}
use llm_middleman.Setup.Stores.{
  slug_keys, backend_of, Home, store_keys, opened_stores, remove_entry,
}

-- A slug has small letters, digits and underscores.
abbrev is_slug_char : ℕ → Bool
is_slug_char c = (leb b'a' c && leb c b'z') || (leb b'0' c && leb c b'9') || c == b'_'

abbrev pub is_slug : Text → Bool
is_slug t = all is_slug_char t

text_eq-dotted : (s t u : Text) → is_slug s ≡ true → text_eq s (t ++ b'.' ∷ u) ≡ false
unfolding text_eq
text_eq-dotted [] [] u h = refl
text_eq-dotted [] (y ∷ t) u h = refl
text_eq-dotted (x ∷ s) [] u h = ground arith
text_eq-dotted (x ∷ s) (y ∷ t) u h = ground (arith, text_eq-dotted s t u)

dotted-text_eq : (s t u : Text) → is_slug t ≡ true → text_eq (s ++ b'.' ∷ u) t ≡ false
unfolding text_eq
dotted-text_eq [] [] u h = refl
dotted-text_eq (x ∷ s) [] u h = refl
dotted-text_eq [] (y ∷ t) u h = ground arith
dotted-text_eq (x ∷ s) (y ∷ t) u h = ground (arith, dotted-text_eq s t u)

text_eq-append_dotted :
    (s t u : Text)
    → is_slug s ≡ true
    → is_slug t ≡ true
    → text_eq s t ≡ false
    → text_eq (s ++ b'.' ∷ u) (t ++ b'.' ∷ u) ≡ false
unfolding text_eq
text_eq-append_dotted [] [] u h k e = cc
text_eq-append_dotted [] (y ∷ t) u h k e = ground arith
text_eq-append_dotted (x ∷ s) [] u h k e = ground arith
text_eq-append_dotted (x ∷ s) (y ∷ t) u h k e = ground (arith, text_eq-append_dotted s t u)

-- The data that the adapter of a loaded entry has.
abbrev pub data_of : SetupResult → Dict Json
data_of (loaded d) = d
data_of _ = []

-- No key of the first list is in the second.
abbrev apart : List Text → List Text → Bool
apart js ks = all (λ (j : Text). not (has_key j ks)) js

slug_keys-apart :
    (b c : Backend) (s t : Text)
    → is_slug s ≡ true
    → is_slug t ≡ true
    → text_eq s t ≡ false
    → apart (slug_keys b s) (slug_keys c t) ≡ true
unfolding slug_keys text_eq
slug_keys-apart dify dify s t h k e = rw e refl
slug_keys-apart dify langgraph s t h k e = refl
slug_keys-apart langgraph dify s t h k e = refl
slug_keys-apart langgraph langgraph s t h k e =
    let suffix : Text = codes "pending_resume" in
    rw
      (
        e,
        text_eq-dotted s t suffix h,
        dotted-text_eq s t suffix k,
        text_eq-append_dotted s t suffix h k e,
      )
      refl
slug_keys-apart _ _ s t h k e = refl

has_key-apart :
    (js ks : List Text) (k : Text) → apart js ks ≡ true → has_key k js ≡ true → has_key k ks ≡ false
has_key-apart [] ks k h e = cc
has_key-apart (j ∷ js) ks k h e =
    let same : (text_eq k j ≡ true → has_key k ks ≡ has_key j ks) =
      (λ q. ap (λ (u : Text). has_key u ks) ((text_eq_iff k j).0 q)) in
    ground (arith, same, has_key-apart js ks k)

module _ (str_of : Json → Text) (slugify : Text → Text) where
  -- The adapter of an entry with an id takes the id for its key.
  entry_key_of-loaded :
      (c : ℕ) (entry_id : Text) (entry_data : Dict Json)
      → entry_key_of str_of (Dict.set (codes "entry_id") (str (c ∷ entry_id)) entry_data)
        ≡ c ∷ entry_id
  unfolding entry_key_of text_or text_eq
  entry_key_of-loaded c entry_id entry_data =
      rw (get-set (codes "entry_id") (codes "entry_id") (str (c ∷ entry_id)) entry_data) refl

  -- The files that the adapter opens are those that the entry's id names.
  opened-loaded :
      (b : Backend) (entry_id : Text) (entry_data : Dict Json)
      → is_empty entry_id ≡ false
      → opened_stores str_of slugify b (data_of (setup_entry entry_id entry_data (ok tt)))
        ≡ store_keys str_of slugify b entry_id
  unfolding opened_stores setup_entry
  opened-loaded b [] entry_data h = cc
  opened-loaded b (c ∷ entry_id) entry_data h = rw (entry_key_of-loaded c entry_id entry_data) refl

  -- What a removal leaves under a name.
  get-removed :
      (b : Backend) (entry_id : Text) (entry_data : Dict Json) (home : Home) (k : Text)
      → backend_of entry_data ≡ ok b
      → Dict.get k (remove_entry str_of slugify entry_id entry_data home).0.stores ≡ (
          if has_key k (store_keys str_of slugify b entry_id) then none else Dict.get k home.stores)
  unfolding remove_entry
  get-removed b entry_id entry_data home k e =
      rw e (get-without_keys (store_keys str_of slugify b entry_id) k home.stores)

  remove_entry-ok :
      (b : Backend) (entry_id : Text) (entry_data : Dict Json) (home : Home)
      → backend_of entry_data ≡ ok b
      → ((remove_entry str_of slugify entry_id entry_data home).1 ≡ ok tt)
        × ((remove_entry str_of slugify entry_id entry_data home).0.connection.issue ≡ false)
  unfolding remove_entry
  remove_entry-ok b entry_id entry_data home e = rw e (refl, refl)

  -- The removal of an entry of a known backend, whose id is not empty, succeeds. It clears the
  -- repair issue of the connection, deletes every file that the adapter of the loaded entry opens,
  -- leaves every other name, and so every file of another entry, of whatever backend, whose slug
  -- differs. The slugs have small letters, digits and underscores.
  pub remove_entry-clears :
      (b c : Backend) (entry_id other : Text) (entry_data : Dict Json) (home : Home) (k j : Text)
      → backend_of entry_data ≡ ok b
      → is_empty entry_id ≡ false
      → is_slug (slugify entry_id) ≡ true
      → is_slug (slugify other) ≡ true
      → text_eq (slugify other) (slugify entry_id) ≡ false
      → has_key j (store_keys str_of slugify c other) ≡ true
      → ((remove_entry str_of slugify entry_id entry_data home).1 ≡ ok tt)
        × ((remove_entry str_of slugify entry_id entry_data home).0.connection.issue ≡ false)
        × (Dict.get k (remove_entry str_of slugify entry_id entry_data home).0.stores ≡ (
            if has_key k
              (opened_stores str_of slugify b (data_of (setup_entry entry_id entry_data (ok tt))))
            then none
            else Dict.get k home.stores))
        × (Dict.get j (remove_entry str_of slugify entry_id entry_data home).0.stores
            ≡ Dict.get j home.stores)
  remove_entry-clears b c entry_id other entry_data home k j e ne hs ho apart_slugs own =
      let (done, cleared) = remove_entry-ok b entry_id entry_data home e in
      let spared : has_key j (store_keys str_of slugify b entry_id) ≡ false =
        has_key-apart (store_keys str_of slugify c other) (store_keys str_of slugify b entry_id) j
          (slug_keys-apart c b (slugify other) (slugify entry_id) ho hs apart_slugs) own in
      (
        done,
        cleared,
        rw (opened-loaded b entry_id entry_data ne) (get-removed b entry_id entry_data home k e),
        get-removed b entry_id entry_data home j e ∙ rw spared refl,
      )
