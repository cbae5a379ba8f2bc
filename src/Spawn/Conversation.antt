-- ===== src/Spawn/Conversation.antt =====
-- spawnservice.c: `_pam_conv`, which answers what PAM asks.
use spawny.Base.{ℕ, List, [], ◌∷◌, ◌++◌, Option, none, Text}

pub data Style : Type 0 where
  prompt_echo_on prompt_echo_off error_msg text_info : Style
  unknown : ℕ → Style

pub record PamMessage : Type 0 where
  pub msg_style : Style
  pub msg : Text

-- The body of the loop for one message: the answer, and the reasons that are reported.
unfoldable pub answer : Option Text → PamMessage → Option Text × List Text
answer pw m = elim m.msg_style [
  | prompt_echo_on ↦ (none, [])
  | prompt_echo_off ↦ (pw, [])
  | error_msg ↦ (none, m.msg ∷ [])
  | text_info ↦ (none, m.msg ∷ [])
  | unknown n ↦ (none, [])
]

-- The reasons that are reported by calls of `_pam_conv` with one message each. A call with more is
-- undefined behaviour: `*rp` is the array of responses, and `rp[i]->…` for `i ≥ 1` is read from
-- behind the pointer to it.
unfoldable pub pam_conv : Option Text → List PamMessage → List Text
unfolding answer
pam_conv pw [] = []
pam_conv pw (m ∷ ms) = (answer pw m).1 ++ pam_conv pw ms
