-- ===== src/Tui/Keys/Arms.antt =====
-- The match of `handle_key` in app.rs: which arm a key takes.
use pg_lens.Prelude.{ℕ, ◌-◌, Bool, true, false, not, ◌&&◌, ◌||◌, leb, nat_eq, if◌then◌else◌}
use pg_lens.Tui.Key.{
  KeyCode, esc, enter, backspace, up, down, left, right, home, end, page_up, page_down, tab,
  back_tab, delete, char, other,
}
use pg_lens.Tui.Tabs.{Tab, micro_lens, blocks_lens, schema_lens, records_lens, index}
use pg_lens.Tui.Selection.{SchemaView, tables, MicroView, activity, idle}
use pg_lens.Tui.Replay.{Media}
use pg_lens.Tui.Keys.{App}

-- The arms, in the order of the match; those that differ only in a number are one.
pub data Arm : Type 0 where
  quit escape cancel terminate enter_row next_tab previous_tab : Arm
  digit : ℕ → Arm
  go_back slash clear_filter toggle_waits toggle_vacuum toggle_partitions toggle_pane : Arm
  jump_blocks jump_query jump_index toggle_sequences toggle_idle yank : Arm
  ask_delete rescan servers databases psql help scroll_up scroll_down move_up move_down : Arm
  page_back page_on first_row last_row sort_rows space refresh_schema toggle_record : Arm
  export step_left step_right loop_frames slow_down speed_up longer_interval : Arm
  shorter_interval nothing : Arm

unfoldable pub same_tab : Tab → Tab → Bool
unfolding index
same_tab a b = nat_eq (index a) (index b)

abbrev pub in_tables : SchemaView → Bool
in_tables tables = true
in_tables _ = false

abbrev pub in_activity : MicroView → Bool
in_activity activity = true
in_activity idle = false

-- `KeyCode::Char`, with the guards.
module _ (media : Media) (app : App media) where
  abbrev pub on_tables : Bool
  on_tables = same_tab app.active_tab schema_lens && in_tables app.schema_view

  abbrev pub on_activity : Bool
  on_activity = same_tab app.active_tab micro_lens && in_activity app.micro_view

  -- The Schema Lens with a table's details open, where `j` and `k` scroll.
  abbrev pub scrolls : Bool
  scrolls = app.detail_open && on_tables

  -- The arms from `y` on.
  unfoldable pub later_char : ℕ → Bool → Arm
  later_char c control =
      if nat_eq c b'y'
      then yank
      else if nat_eq c b'x' && same_tab app.active_tab records_lens
      then ask_delete
      else if (nat_eq c b'b' || nat_eq c b'B') && same_tab app.active_tab records_lens
      then rescan
      else if nat_eq c b'C'
      then servers
      else if nat_eq c b'd'
      then databases
      else if nat_eq c b'!'
      then psql
      else if nat_eq c b'?'
      then help
      else if nat_eq c b'k' && scrolls
      then scroll_up
      else if nat_eq c b'j' && scrolls
      then scroll_down
      else if nat_eq c b'k'
      then move_up
      else if nat_eq c b'j'
      then move_down
      else if nat_eq c b'g'
      then first_row
      else if nat_eq c b'G'
      then last_row
      else if nat_eq c b's'
      then sort_rows
      else if nat_eq c b' '
      then space
      else if nat_eq c b'B'
      then refresh_schema
      else if nat_eq c b'R' || (nat_eq c b'r' && control)
      then toggle_record
      else if nat_eq c b'E'
      then export
      else if nat_eq c b'l' || nat_eq c b'L'
      then loop_frames
      else if nat_eq c b'['
      then slow_down
      else if nat_eq c b']'
      then speed_up
      else if nat_eq c b'+' || nat_eq c b'='
      then longer_interval
      else if nat_eq c b'-'
      then shorter_interval
      else nothing

  -- The arms of one tab, from `b` to `I`.
  unfoldable pub jump_char : ℕ → Bool → Arm
  unfolding later_char
  jump_char c control =
      if nat_eq c b'b' && not (same_tab app.active_tab blocks_lens)
      then jump_blocks
      else if nat_eq c b'x' && on_tables
      then jump_query
      else if nat_eq c b'i' && on_tables
      then jump_index
      else if nat_eq c b'S' && same_tab app.active_tab schema_lens
      then toggle_sequences
      else if nat_eq c b'I' && same_tab app.active_tab micro_lens
      then toggle_idle
      else later_char c control

  -- The arms of one tab, from `w` on.
  unfoldable pub lens_char : ℕ → Bool → Arm
  unfolding jump_char
  lens_char c control =
      if nat_eq c b'w' && on_activity
      then toggle_waits
      else if nat_eq c b'v' && same_tab app.active_tab schema_lens
      then toggle_vacuum
      else if nat_eq c b'p' && on_tables
      then toggle_partitions
      else if (nat_eq c b'p' || nat_eq c b'o') && same_tab app.active_tab blocks_lens
      then toggle_pane
      else jump_char c control

  -- The arms from `K` to `I`.
  unfoldable pub middle_char : ℕ → Bool → Arm
  unfolding lens_char
  middle_char c control =
      if nat_eq c b'K'
      then terminate
      else if leb b'1' c && leb c b'9'
      then digit (c - b'1')
      else if nat_eq c b'/'
      then slash
      else if nat_eq c 0x5c
      then clear_filter
      else lens_char c control

  unfoldable pub char_arm : ℕ → Bool → Arm
  unfolding middle_char
  char_arm c control =
      if nat_eq c b'q'
      then quit
      else if nat_eq c b'c' && control
      then quit
      else if nat_eq c b'c'
      then cancel
      else middle_char c control

  unfoldable pub arm_of : KeyCode → Bool → Arm
  unfolding char_arm
  arm_of esc control = escape
  arm_of enter control = enter_row
  arm_of backspace control = go_back
  arm_of up control = if scrolls then scroll_up else move_up
  arm_of down control = if scrolls then scroll_down else move_down
  arm_of left control = step_left
  arm_of right control = step_right
  arm_of home control = first_row
  arm_of end control = last_row
  arm_of page_up control = page_back
  arm_of page_down control = page_on
  arm_of tab control = next_tab
  arm_of back_tab control = previous_tab
  arm_of delete control = if same_tab app.active_tab records_lens then ask_delete else nothing
  arm_of (char c) control = char_arm c control
  arm_of other control = nothing
