-- ===== src/Tui/Filter.antt =====
-- The filters of the lenses in crates/pg_lens_tui/src/app.rs. Each lens has its own triple: for the
-- Micro Lens `filter`, `filter_editing` and `filter_saved`, for the others these with the lens as
-- a prefix. What a key makes of the rows (`resort_for`, then `clamp_selection`) is held as the lens
-- whose rows are sorted again.
pub mod Edit
use pg_lens.Prelude.{
  ℕ, Bool, true, false, not, ◌&&◌, Option, none, some, List, [], ◌∷◌, ◌++◌, if◌then◌else◌,
}
use pg_lens.Prelude.Text.{Text}
use pg_lens.Tui.Tabs
use pg_lens.Tui.Tabs.{Tab}
use pg_lens.Tui.Selection.{SchemaView, vacuum, MicroView, activity, idle}
use pg_lens.Tui.Key.{
  KeyCode, KeyEvent, char, esc, enter, backspace, up, down, other, is_ctrl_c, is_esc, is_enter,
  is_backspace,
}

pub record Filter : Type 0 where
  pub text : Text
  pub editing : Bool
  pub saved : Text

pub record Filters : Type 0 where
  pub micro : Filter
  pub schema : Filter
  pub statements : Filter
  pub progress : Filter
  pub records : Filter
  pub index : Filter
  pub should_quit : Bool

pub data FilterLens : Type 0 where
  micro_lens : FilterLens
  schema_lens : FilterLens
  query_lens : FilterLens
  progress_lens : FilterLens
  records_lens : FilterLens
  index_lens : FilterLens

unfoldable pub active_filter_lens : Filters → Option FilterLens
active_filter_lens app =
    if app.micro.editing
    then some micro_lens
    else if app.schema.editing
    then some schema_lens
    else if app.statements.editing
    then some query_lens
    else if app.progress.editing
    then some progress_lens
    else if app.records.editing
    then some records_lens
    else if app.index.editing
    then some index_lens
    else none

unfoldable pub filter_of : FilterLens → Filters → Filter
filter_of micro_lens app = app.micro
filter_of schema_lens app = app.schema
filter_of query_lens app = app.statements
filter_of progress_lens app = app.progress
filter_of records_lens app = app.records
filter_of index_lens app = app.index

unfoldable pub set_filter : FilterLens → Filter → Filters → Filters
set_filter micro_lens f app = record app { micro = f }
set_filter schema_lens f app = record app { schema = f }
set_filter query_lens f app = record app { statements = f }
set_filter progress_lens f app = record app { progress = f }
set_filter records_lens f app = record app { records = f }
set_filter index_lens f app = record app { index = f }

-- `String::pop`
unfoldable pub pop : Text → Text
pop [] = []
pop (c ∷ []) = []
pop (c ∷ d ∷ s) = c ∷ pop (d ∷ s)

abbrev pub pushed : KeyEvent → Filter → Option Filter
pushed key f = elim key.code [
  | char c ↦ if key.control then none else some (record f { text = f.text ++ c ∷ [] })
  | _ ↦ none
]

-- The arms of `match key.code`, on the triple of the lens, and whether its rows are sorted again.
unfoldable pub edit_key : KeyEvent → Filter → Option (Filter × Bool)
unfolding pop
edit_key key f =
    if is_enter key.code
    then some (record f { editing = false }, false)
    else if is_esc key.code
    then some (record { text = f.saved; editing = false; saved = [] }, true)
    else if is_backspace key.code
    then some (record f { text = pop f.text }, true)
    else elim (pushed key f) [ none ↦ none | some g ↦ some (g, true) ]

abbrev sorted_again : FilterLens → Bool → Option FilterLens
sorted_again lens true = some lens
sorted_again lens false = none

unfoldable pub applied : FilterLens → Filters → Option (Filter × Bool) → Filters × Option FilterLens
unfolding set_filter
applied lens app none = (app, none)
applied lens app (some (f, again)) = (set_filter lens f app, sorted_again lens again)

unfoldable pub handle_filter_key : Filters → KeyEvent → Filters × Option FilterLens
unfolding active_filter_lens filter_of edit_key applied
handle_filter_key app key =
    if is_ctrl_c key
    then (record app { should_quit = true }, none)
    else elim (active_filter_lens app) [
      | none ↦ (app, none)
      | some lens ↦ applied lens app (edit_key key (filter_of lens app))
    ]

-- Which lens the guards of the arms for `/` in `handle_key` let be edited.
unfoldable pub slash_lens : Tab → SchemaView → MicroView → Option FilterLens
slash_lens Tabs.micro_lens s activity = some micro_lens
slash_lens Tabs.micro_lens s idle = none
slash_lens Tabs.schema_lens vacuum m = none
slash_lens Tabs.schema_lens _ m = some schema_lens
slash_lens Tabs.index_lens s m = some index_lens
slash_lens Tabs.query_lens s m = some query_lens
slash_lens Tabs.progress_lens s m = some progress_lens
slash_lens Tabs.records_lens s m = some records_lens
slash_lens _ s m = none

abbrev pub begin_edit : Filter → Filter
begin_edit f = record { text = f.text; editing = true; saved = f.text }

-- The arms for `/`.
unfoldable pub press_slash : Tab → SchemaView → MicroView → Filters → Filters
unfolding slash_lens filter_of set_filter
press_slash tab s m app = elim (slash_lens tab s m) [
  | none ↦ app
  | some lens ↦ set_filter lens (begin_edit (filter_of lens app)) app
]
