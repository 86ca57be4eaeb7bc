-- ===== src/Tui/Filter/Edit.antt =====
-- An edit of a filter can be taken back, and touches its own lens only.
use pg_lens.Prelude.{
  ◌≡◌, refl, ◌∙◌, ap, inl, inr, Bool, true, false, Option, none, some, List, [], ◌∷◌, All,
  Bool-cases, Option-cases, arith,
}
use pg_lens.Prelude.Text.{Text}
use pg_lens.Tui.Tabs.{Tab}
use pg_lens.Tui.Selection.{SchemaView, MicroView}
use pg_lens.Tui.Key.{KeyEvent, KeyCode, char, esc, enter, is_ctrl_c, is_esc, is_enter, is_backspace}
use pg_lens.Tui.Filter.{
  Filter, Filters, FilterLens, micro_lens, schema_lens, query_lens, progress_lens, records_lens,
  index_lens, active_filter_lens, filter_of, set_filter, pushed, edit_key, applied,
  handle_filter_key, slash_lens, begin_edit, press_slash,
}

-- A key that neither commits, nor takes back, nor quits.
abbrev pub IsTyping : KeyEvent → Type 0
IsTyping key = (is_enter key.code ≡ false) × (is_esc key.code ≡ false) × (is_ctrl_c key ≡ false)

abbrev pub press_all : Filters → List KeyEvent → Filters
unfolding handle_filter_key
press_all app [] = app
press_all app (key ∷ keys) = press_all (handle_filter_key app key).0 keys

filter_of-set_filter :
    (lens : FilterLens) (f : Filter) (app : Filters) → filter_of lens (set_filter lens f app) ≡ f
unfolding filter_of set_filter
filter_of-set_filter micro_lens f app = refl
filter_of-set_filter schema_lens f app = refl
filter_of-set_filter query_lens f app = refl
filter_of-set_filter progress_lens f app = refl
filter_of-set_filter records_lens f app = refl
filter_of-set_filter index_lens f app = refl

set_filter-twice :
    (lens : FilterLens) (f g : Filter) (app : Filters)
    → set_filter lens f (set_filter lens g app) ≡ set_filter lens f app
unfolding set_filter
set_filter-twice micro_lens f g app = refl
set_filter-twice schema_lens f g app = refl
set_filter-twice query_lens f g app = refl
set_filter-twice progress_lens f g app = refl
set_filter-twice records_lens f g app = refl
set_filter-twice index_lens f g app = refl

-- With no filter being edited before, the lens of the one that is now.
active-set_filter :
    (lens : FilterLens) (f : Filter) (app : Filters)
    → active_filter_lens app ≡ none
    → f.editing ≡ true
    → active_filter_lens (set_filter lens f app) ≡ some lens
unfolding active_filter_lens set_filter
active-set_filter micro_lens f app h e = ground (arith, h, e)
active-set_filter schema_lens f app h e = ground (arith, h, e)
active-set_filter query_lens f app h e = ground (arith, h, e)
active-set_filter progress_lens f app h e = ground (arith, h, e)
active-set_filter records_lens f app h e = ground (arith, h, e)
active-set_filter index_lens f app h e = ground (arith, h, e)

-- What typing leaves of the triple.
record IsEdited (old new : Filter) : Type 0 where
  editing : new.editing ≡ true
  saved : new.saved ≡ old.saved

abbrev result : Filter → Option (Filter × Bool) → Filter
result g none = g
result g (some (f, again)) = f

abbrev pushed_or : Filter → Option Filter → Filter
pushed_or g none = g
pushed_or g (some f) = f

pushed-IsEdited :
    (code : KeyCode) (control : Bool) (g : Filter)
    → g.editing ≡ true
    → IsEdited g (pushed_or g (pushed (record { code = code; control = control }) g))
pushed-IsEdited (char c) true g e = record { editing = e; saved = refl }
pushed-IsEdited (char c) false g e = record { editing = e; saved = refl }
pushed-IsEdited _ control g e = record { editing = e; saved = refl }

edit_key-IsEdited :
    (key : KeyEvent) (g : Filter)
    → IsTyping key
    → g.editing ≡ true
    → IsEdited g (result g (edit_key key g))
unfolding edit_key
edit_key-IsEdited key g (not_enter, not_esc, _) e = elim (Bool-cases (is_backspace key.code)) [
  | inl b ↦ rw (not_enter, not_esc, b) (record { editing = e; saved = refl })
  | inr b ↦
      let p = pushed-IsEdited key.code key.control g e in
      elim (Option-cases (pushed key g)) [
        | inl z ↦ rw (edit_key, not_enter, not_esc, b, z) (rw z at p)
        | inr (f, z) ↦ rw (edit_key, not_enter, not_esc, b, z) (rw z at p)
      ]
]

applied_lem :
    (lens : FilterLens) (g : Filter) (app : Filters) (o : Option (Filter × Bool))
    → (applied lens (set_filter lens g app) o).0 ≡ set_filter lens (result g o) app
unfolding applied
applied_lem lens g app none = refl
applied_lem lens g app (some (f, again)) = set_filter-twice lens f g app

handle-active :
    (app : Filters) (key : KeyEvent) (lens : FilterLens)
    → is_ctrl_c key ≡ false
    → active_filter_lens app ≡ some lens
    → handle_filter_key app key ≡ applied lens app (edit_key key (filter_of lens app))
unfolding handle_filter_key
handle-active app key lens not_quit active = rw (handle_filter_key, not_quit, active)

-- One key, on the triple of the lens that is being edited.
press_lem :
    (lens : FilterLens) (g : Filter) (app : Filters) (key : KeyEvent)
    → active_filter_lens app ≡ none
    → g.editing ≡ true
    → is_ctrl_c key ≡ false
    → (handle_filter_key (set_filter lens g app) key).0
      ≡ set_filter lens (result g (edit_key key g)) app
press_lem lens g app key idle e not_quit =
    let active = active-set_filter lens g app idle e in
    let own = filter_of-set_filter lens g app in
    let now = set_filter lens g app in
    ap (λ (r : Filters × Option FilterLens). r.0) (handle-active now key lens not_quit active)
    ∙ ap (λ f. (applied lens now (edit_key key f)).0) own
    ∙ applied_lem lens g app (edit_key key g)

press_all_lem :
    (lens : FilterLens) (g : Filter) (app : Filters) (keys : List KeyEvent)
    → active_filter_lens app ≡ none
    → g.editing ≡ true
    → All IsTyping keys
    → (h : Filter) × (press_all (set_filter lens g app) keys ≡ set_filter lens h app)
      × (h.editing ≡ true)
      × (h.saved ≡ g.saved)
unfolding press_all
press_all_lem lens g app [] idle e t = (g, refl, e, refl)
press_all_lem lens g app (key ∷ keys) idle e t =
    let edited = edit_key-IsEdited key g t.0 e in
    let (h, more, f, s) =
      press_all_lem lens (result g (edit_key key g)) app keys idle edited.editing t.1 in
    (h, rw (press_lem lens g app key idle e t.0.2) more, f, s ∙ edited.saved)

-- An edit of a filter that is begun with `/`, goes on with any keys but Enter, Esc and Ctrl+C, and
-- ends with Esc leaves the filters of all lenses as they were, with none being edited and the saved
-- text of its own lens emptied; if it ends with Enter instead, it has changed the filter of its own lens at most.
pub filter_edit :
    (tab : Tab) (s : SchemaView) (m : MicroView) (app : Filters) (lens : FilterLens)
    (keys : List KeyEvent)
    → slash_lens tab s m ≡ some lens
    → active_filter_lens app ≡ none
    → All IsTyping keys
    → let typed = press_all (press_slash tab s m app) keys in
      let old = filter_of lens app in
      ((handle_filter_key typed (record { code = esc; control = false })).0
        ≡ set_filter lens (record { text = old.text; editing = false; saved = [] }) app)
      × ((text : Text) × ((handle_filter_key typed (record { code = enter; control = false })).0
            ≡ set_filter lens (record { text = text; editing = false; saved = old.text }) app))
unfolding press_slash edit_key
filter_edit tab s m app lens keys slash idle t =
    let (h, typed, e, saved) =
      press_all_lem lens (begin_edit (filter_of lens app)) app keys idle refl t in
    rw (press_slash, slash, typed)
      (
        press_lem lens h app (record { code = esc; control = false }) idle e refl
            ∙ ap (λ old. set_filter lens (record { text = old; editing = false; saved = [] }) app)
                saved,
        (
          h.text,
          press_lem lens h app (record { code = enter; control = false }) idle e refl
              ∙ ap
                  (λ old.
                    set_filter lens (record { text = h.text; editing = false; saved = old }) app)
                  saved,
        ),
      )
