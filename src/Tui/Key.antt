-- ===== src/Tui/Key.antt =====
-- The keys of the crate `crossterm` that the key maps tell apart. A character is its code point.
use pg_lens.Prelude.{ℕ, Bool, true, false, ◌&&◌, nat_eq}
use pg_lens.Prelude.Text.{Text}

pub data KeyCode : Type 0 where
  esc : KeyCode
  enter : KeyCode
  backspace : KeyCode
  up : KeyCode
  down : KeyCode
  left : KeyCode
  right : KeyCode
  home : KeyCode
  end : KeyCode
  page_up : KeyCode
  page_down : KeyCode
  tab : KeyCode
  back_tab : KeyCode
  delete : KeyCode
  char : ℕ → KeyCode
  other : KeyCode

pub record KeyEvent : Type 0 where
  pub code : KeyCode
  pub control : Bool

abbrev pub is_char : ℕ → KeyCode → Bool
is_char c (char d) = nat_eq d c
is_char c _ = false

-- `key.code == KeyCode::Char('c') && key.modifiers.contains(KeyModifiers::CONTROL)`
abbrev pub is_ctrl_c : KeyEvent → Bool
is_ctrl_c key = is_char b'c' key.code && key.control

abbrev pub is_esc : KeyCode → Bool
is_esc esc = true
is_esc _ = false

abbrev pub is_enter : KeyCode → Bool
is_enter enter = true
is_enter _ = false

abbrev pub is_backspace : KeyCode → Bool
is_backspace backspace = true
is_backspace _ = false

abbrev pub is_up : KeyCode → Bool
is_up up = true
is_up (char c) = nat_eq c b'k'
is_up _ = false

abbrev pub is_down : KeyCode → Bool
is_down down = true
is_down (char c) = nat_eq c b'j'
is_down _ = false

pub record AdminFeedback : Type 0 where
  pub text : Text
  pub error : Bool
  pub expires_at_tick : ℕ

abbrev pub admin_feedback_ticks : ℕ
admin_feedback_ticks = 40
