-- ===== src/Conversation/Keys.antt =====
-- The session keys of different agents and of different devices.
use llm_middleman.Base.{
  ◌≡◌, refl, sym, ap, ◌∙◌, ◌≢◌, Option, none, some, [], ◌∷◌, ◌++◌, length, take, Text,
}
use llm_middleman.Conversation.{MemoryScope, conversation, device, agent, turn_keys}

-- A turn whose session belongs to the agent: in the scope `agent`, or in the scope `device` on a
-- device with an id.
abbrev pub IsAgentScoped : MemoryScope → Option Text → Type 0
IsAgentScoped agent d = Unit {0}
IsAgentScoped device (some (c ∷ cs)) = Unit {0}
IsAgentScoped _ _ = ⊥

take-length-append : (xs ys : Text) → take (length xs) (xs ++ ys) ≡ xs
take-length-append [] ys = refl
take-length-append (x ∷ xs) ys = ap (◌∷◌ x) (take-length-append xs ys)

take-length : (xs : Text) → take (length xs) xs ≡ xs
take-length [] = refl
take-length (x ∷ xs) = ap (◌∷◌ x) (take-length xs)

take-turn_keys :
    (sub : Text) (scope : MemoryScope) (d : Option Text) (conv : Text)
    → IsAgentScoped scope d
    → take (length sub) (turn_keys sub scope d conv).memory_key ≡ sub
unfolding turn_keys
take-turn_keys sub agent d conv h = take-length sub
take-turn_keys sub device (some (c ∷ cs)) conv h = take-length-append sub _
take-turn_keys sub device (some []) conv h = elim h [ ]
take-turn_keys sub device none conv h = elim h [ ]
take-turn_keys sub conversation d conv h = elim h [ ]

-- Two agents of a connection, whose subentry ids have one length, never share an agent-scoped
-- session, whatever the devices and conversations.
pub turn_keys_ne :
    (a b : Text) (sa sb : MemoryScope) (da db : Option Text) (ca cb : Text)
    → length a ≡ length b
    → a ≢ b
    → IsAgentScoped sa da
    → IsAgentScoped sb db
    → (turn_keys a sa da ca).memory_key ≢ (turn_keys b sb db cb).memory_key
turn_keys_ne a b sa sb da db ca cb l ne ha hb e =
    ne (sym (take-turn_keys a sa da ca ha) ∙ cc (e, l) ∙ take-turn_keys b sb db cb hb)
