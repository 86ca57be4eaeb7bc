-- ===== src/Tui/Picker/Choice.antt =====
-- A picker's cursor stays on an entry, and what is picked is an entry.
use pg_lens.Prelude.{
  ℕ, ◌<◌, ◌≡◌, refl, ◌⊎◌, inl, inr, Bool, true, false, ◌&&◌, Option, none, some, List, [], ◌∷◌,
  length, get_elem?, get_elem?-some, is_empty, unwrap_or, Option-cases, arith, if-both, if-each,
}
use pg_lens.Prelude.Text.{Text, Text_eq}
use pg_lens.Tui.Key.{KeyCode, KeyEvent, enter, is_char, is_ctrl_c, is_esc, is_enter, is_up, is_down}
use pg_lens.Tui.Picker.{
  PickerState, position, db_picker_new, server_picker_new, move_up, move_down, Overlay, same_name,
  choose, enter_arm, handle_overlay_key, open_db_picker, open_server_picker, map_option,
}

-- The cursor is on an entry.
abbrev pub IsOn : {E : Type 0} → Option (PickerState E) → Type 0
IsOn none = Unit
IsOn (some p) = p.selected < length p.entries

position-lt :
    {E : Type 0} (name : E → Text) (current : Text) (es : List E) (i : ℕ)
    → position name current es ≡ some i
    → i < length es
unfolding position
position-lt name current [] i h = cc
position-lt name current (e ∷ es) i h = elim (Option-cases (position name current es)) [
  | inl z ↦ ground (arith, rw (position, z) at h)
  | inr (k, z) ↦ ground (arith, rw (position, z) at h, position-lt name current es k z)
]

nonempty-lt : {E : Type 0} (es : List E) → is_empty es ≡ false → 0 < length es
nonempty-lt [] h = cc
nonempty-lt (e ∷ es) h = ground arith

found-lt :
    {E : Type 0} (name : E → Text) (current : Text) (es : List E)
    → is_empty es ≡ false
    → unwrap_or (position name current es) 0 < length es
found-lt name current es h = elim (Option-cases (position name current es)) [
  | inl z ↦ rw z (nonempty-lt es h)
  | inr (i, z) ↦ rw z (position-lt name current es i z)
]

move_up-IsOn : {E : Type 0} (o : Option (PickerState E)) → IsOn o → IsOn (map_option move_up o)
move_up-IsOn none h = tt
move_up-IsOn (some p) h = omega (arith, h)

move_down-IsOn : {E : Type 0} (o : Option (PickerState E)) → IsOn o → IsOn (map_option move_down o)
move_down-IsOn none h = tt
move_down-IsOn (some p) h = ground (arith, h)

esc-not_enter : (c : KeyCode) → is_esc c ≡ true → is_enter c ≡ false
esc-not_enter enter h = absurd (cc)
esc-not_enter c h = refl

ctrl_c-not_enter :
    (c : KeyCode) (control : Bool) → (is_char b'c' c && control) ≡ true → is_enter c ≡ false
ctrl_c-not_enter enter control h = absurd (cc)
ctrl_c-not_enter c control h = refl

up-not_enter : (c : KeyCode) → is_up c ≡ true → is_enter c ≡ false
up-not_enter enter h = absurd (cc)
up-not_enter c h = refl

down-not_enter : (c : KeyCode) → is_down c ≡ true → is_enter c ≡ false
down-not_enter enter h = absurd (cc)
down-not_enter c h = refl

module _ {E : Type 0} (name : E → Text) (mock_message : Text) where
  -- The picker is open with its cursor on the entry.
  abbrev pub PointsAt : Overlay E → E → Type 0
  PointsAt app entry =
      (p : PickerState E) × (app.picker ≡ some p) × (get_elem? p.entries p.selected ≡ some entry)

  -- Why a key asks for nothing: it is not Enter, or there is no picker, or the entry under the
  -- cursor is the one that is connected, or the data is made up.
  abbrev pub IsIdle : Overlay E → KeyEvent → Type 0
  IsIdle app key =
      (is_enter key.code ≡ false)
      ⊎ ((app.picker ≡ none)
          ⊎ (((entry : E) × PointsAt app entry × (same_name app.current (name entry) ≡ true))
              ⊎ (app.is_mock ≡ true)))

  -- What a key does: the cursor is on an entry, and either nothing is asked for that was not
  -- before, for one of these reasons, or the key is Enter, the picker closes, and a switch to the
  -- entry under the cursor is asked for, by name.
  abbrev pub Outcome : Overlay E → KeyEvent → Overlay E → Type 0
  Outcome app key after =
      IsOn after.picker
      × ((IsIdle app key × (after.pending_switch ≡ app.pending_switch))
          ⊎ ((is_enter key.code ≡ true)
              × (app.is_mock ≡ false)
              × (after.picker ≡ none)
              × (entry : E) × PointsAt app entry
              × (same_name app.current (name entry) ≡ false)
              × (after.pending_switch ≡ some (name entry))))

  choose-Outcome :
      (p : PickerState E) (app : Overlay E) (key : KeyEvent)
      → app.picker ≡ some p
      → p.selected < length p.entries
      → is_enter key.code ≡ true
      → Outcome app key (choose name mock_message p app)
  unfolding choose
  choose-Outcome p app key h on pressed =
      let (entry, z) = get_elem?-some p.entries p.selected on in
      rw (choose, z)
        (if-each (Outcome app key) (same_name app.current (name entry))
          (λ s. (tt, inl (inr (inr (inl (entry, (p, h, z), s))), refl)))
          (λ s.
            if-each (Outcome app key) app.is_mock (λ m. (tt, inl (inr (inr (inr m)), refl)))
              (λ m. (tt, inr (pressed, m, refl, entry, (p, h, z), s, refl)))))

  enter_arm-Outcome :
      (o : Option (PickerState E)) (app : Overlay E) (key : KeyEvent)
      → app.picker ≡ o
      → IsOn o
      → IsOn app.picker
      → is_enter key.code ≡ true
      → Outcome app key (enter_arm name mock_message o app)
  enter_arm-Outcome none app key e on h pressed = (h, inl (inr (inl e), refl))
  enter_arm-Outcome (some p) app key e on h pressed = choose-Outcome p app key e on pressed

  -- No key of an overlay picker moves its cursor off the entries, and a switch is asked for exactly
  -- by Enter in an open picker, to the entry under the cursor, where this is not the one that is
  -- connected and the data is not made up; Enter then closes the picker.
  pub handle_overlay_key-Outcome :
      (app : Overlay E) (key : KeyEvent)
      → IsOn app.picker
      → Outcome app key (handle_overlay_key name mock_message app key)
  unfolding handle_overlay_key
  handle_overlay_key-Outcome app key h =
      let P = Outcome app key in
      if-each P (is_esc key.code) (λ t. (tt, inl (inl (esc-not_enter key.code t), refl)))
        (λ _.
          if-each P (is_ctrl_c key)
            (λ t. (h, inl (inl (ctrl_c-not_enter key.code key.control t), refl)))
            (λ _.
              if-each P (is_up key.code)
                (λ t. (move_up-IsOn app.picker h, inl (inl (up-not_enter key.code t), refl)))
                (λ _.
                  if-each P (is_down key.code)
                    (λ t.
                      (move_down-IsOn app.picker h, inl (inl (down-not_enter key.code t), refl)))
                    (λ _.
                      if-each P (is_enter key.code)
                        (λ t. enter_arm-Outcome app.picker app key refl h h t)
                        (λ f. (h, inl (inl f, refl)))))))

  -- An overlay picker opens with its cursor on an entry, or does not open.
  pub open_db_picker-IsOn :
      (databases : Option (List E)) (database : Text) (app : Overlay E)
      → IsOn app.picker
      → IsOn (open_db_picker name databases database app).picker
  unfolding open_db_picker db_picker_new
  open_db_picker-IsOn none database app h =
      if-both (λ (a : Overlay E). IsOn a.picker) app.is_replay h h
  open_db_picker-IsOn (some entries) database app h =
      if-both (λ (a : Overlay E). IsOn a.picker) app.is_replay h
        (if-each (λ (a : Overlay E). IsOn a.picker) (is_empty entries) (λ _. h)
          (λ e. found-lt name database entries e))

  server_picker_new-lt :
      (es : List E) (server : Option Text)
      → is_empty es ≡ false
      → IsOn (some (server_picker_new name es server))
  unfolding server_picker_new
  server_picker_new-lt es none h = nonempty-lt es h
  server_picker_new-lt es (some current) h = found-lt name current es h

  pub open_server_picker-IsOn :
      (servers : List E) (server : Option Text) (app : Overlay E)
      → IsOn app.picker
      → IsOn (open_server_picker name servers server app).picker
  unfolding open_server_picker
  open_server_picker-IsOn servers server app h =
      if-both (λ (a : Overlay E). IsOn a.picker) app.is_replay h
        (if-each (λ (a : Overlay E). IsOn a.picker) (is_empty servers) (λ _. h)
          (λ e. server_picker_new-lt servers server e))
