-- ===== src/Tui/Picker.antt =====
-- The three pickers of crates/pg_lens_tui/src/app.rs: the one at the start, the one for databases
-- and the one for servers. Of the `App` each part holds the fields that its key map touches.
pub mod Choice
use pg_lens.Prelude.{
  ℕ, zero, suc, ◌+◌, ◌-◌, min, Bool, true, false, not, ◌&&◌, ◌||◌, Option, none, some, List, [],
  ◌∷◌, length, get_elem?, is_empty, unwrap_or, if◌then◌else◌, ◌==◌,
}
use pg_lens.Prelude.Text.{Text, codes, Text_eq}
use pg_lens.Tui.Key.{
  KeyEvent, is_char, is_ctrl_c, is_esc, is_enter, is_up, is_down, AdminFeedback,
  admin_feedback_ticks,
}

-- `PickerState`, `DbPickerState` and `ServerPickerState` differ in the type of an entry.
pub record PickerState (E : Type 0) : Type 0 where
  pub entries : List E
  pub selected : ℕ

-- `PickerState::new`
unfoldable pub picker_new : {E : Type 0} → List E → PickerState E
picker_new entries = record { entries = entries; selected = 0 }

-- `entries.iter().position(|e| e.name == current)`
unfoldable pub position : {E : Type 0} → (E → Text) → Text → List E → Option ℕ
position name current [] = none
position name current (e ∷ es) =
    let rest : Option ℕ = elim (position name current es) [ none ↦ none | some i ↦ some (suc i) ] in
    if name e == current then some 0 else rest

-- `DbPickerState::new`
unfoldable pub db_picker_new : {E : Type 0} → (E → Text) → List E → Text → PickerState E
unfolding position
db_picker_new name entries current = record {
  entries = entries;
  selected = unwrap_or (position name current entries) 0;
}

-- `ServerPickerState::new`
unfoldable pub server_picker_new : {E : Type 0} → (E → Text) → List E → Option Text → PickerState E
unfolding position
server_picker_new name entries none = record { entries = entries; selected = 0 }
server_picker_new name entries (some current) = record {
  entries = entries;
  selected = unwrap_or (position name current entries) 0;
}

-- The arms `Up` and `Down`.
abbrev pub move_up : {E : Type 0} → PickerState E → PickerState E
move_up p = record p { selected = p.selected - 1 }

abbrev pub move_down : {E : Type 0} → PickerState E → PickerState E
move_down p =
    if not (is_empty p.entries)
    then record p { selected = min (p.selected + 1) (length p.entries - 1) }
    else p

abbrev pub map_option : {A B : Type 0} → (A → B) → Option A → Option B
map_option f none = none
map_option f (some a) = some (f a)

-- What an overlay picker reads and writes of the `App`; `pending_switch` is `pending_db_switch` or
-- `pending_server_switch`, `current` the name of the database or the server that is connected.
pub record Overlay (E : Type 0) : Type 0 where
  pub picker : Option (PickerState E)
  pub should_quit : Bool
  pub is_mock : Bool
  pub is_replay : Bool
  pub tick_count : ℕ
  pub admin_feedback : Option AdminFeedback
  pub pending_switch : Option Text
  pub current : Option Text

abbrev pub same_name : Option Text → Text → Bool
same_name none name = false
same_name (some current) name = current == name

module _ {E : Type 0} (name : E → Text) (mock_message : Text) where
  -- The arm `Enter`, once the picker is taken.
  unfoldable pub choose : PickerState E → Overlay E → Overlay E
  choose p app = elim (get_elem? p.entries p.selected) [
    | none ↦ record app { picker = none }
    | some entry ↦
        if same_name app.current (name entry)
        then record app { picker = none }
        else if app.is_mock
        then record app {
          picker = none;
          admin_feedback = some (record {
            text = mock_message;
            error = false;
            expires_at_tick = app.tick_count + admin_feedback_ticks;
          });
        }
        else record app { picker = none; pending_switch = some (name entry) }
  ]

  abbrev pub enter_arm : Option (PickerState E) → Overlay E → Overlay E
  enter_arm none app = app
  enter_arm (some p) app = choose p app

  -- `handle_db_picker_key` and `handle_server_picker_key`
  unfoldable pub handle_overlay_key : Overlay E → KeyEvent → Overlay E
  unfolding choose
  handle_overlay_key app key =
      if is_esc key.code
      then record app { picker = none }
      else if is_ctrl_c key
      then record app { should_quit = true }
      else if is_up key.code
      then record app { picker = map_option move_up app.picker }
      else if is_down key.code
      then record app { picker = map_option move_down app.picker }
      else if is_enter key.code
      then enter_arm app.picker app
      else app

abbrev pub db_mock_message : Text
db_mock_message = codes "mock mode: database switch not simulated"

abbrev pub server_mock_message : Text
server_mock_message = codes "mock mode: server switch not simulated"

abbrev say : {E : Type 0} → Text → Overlay E → Overlay E
say text app = record app {
  admin_feedback = some (record {
    text = text;
    error = false;
    expires_at_tick = app.tick_count + admin_feedback_ticks;
  });
}

-- `open_db_picker`, whose list of databases is the snapshot's.
unfoldable pub open_db_picker :
    {E : Type 0} → (E → Text) → Option (List E) → Text → Overlay E → Overlay E
unfolding db_picker_new
open_db_picker name databases database app =
    if app.is_replay
    then say (codes "replay mode: cannot switch database") app
    else elim databases [
      | none ↦ app
      | some entries ↦
          if is_empty entries
          then app
          else record app { picker = some (db_picker_new name entries database) }
    ]

-- `open_server_picker`
unfoldable pub open_server_picker :
    {E : Type 0} → (E → Text) → List E → Option Text → Overlay E → Overlay E
unfolding server_picker_new
open_server_picker name servers server app =
    if app.is_replay
    then say (codes "replay mode: cannot switch server") app
    else if is_empty servers
    then say (codes "no servers configured in services.toml") app
    else record app { picker = some (server_picker_new name servers server) }

-- The picker at the start of the program.
pub record Startup (E : Type 0) : Type 0 where
  pub picker : Option (PickerState E)
  pub picked : Option E
  pub should_quit : Bool

abbrev pick : {E : Type 0} → Option (PickerState E) → Startup E → Startup E
pick none app = app
pick (some p) app = elim (get_elem? p.entries p.selected) [
  | some entry ↦ record app { picker = none; picked = some entry }
  | none ↦ record app { picker = some p }
]

unfoldable pub handle_picker_key : {E : Type 0} → Startup E → KeyEvent → Startup E
handle_picker_key app key =
    if is_char b'q' key.code || is_esc key.code
    then record app { should_quit = true }
    else if is_ctrl_c key
    then record app { should_quit = true }
    else if is_up key.code
    then record app { picker = map_option move_up app.picker }
    else if is_down key.code
    then record app { picker = map_option move_down app.picker }
    else if is_enter key.code
    then pick app.picker app
    else app
