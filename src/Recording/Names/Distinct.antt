-- ===== src/Recording/Names/Distinct.antt =====
-- The names that the writer of recording.rs gives to different files are different.
use mathlib.Core.List.{append_cancel_left}
use pg_lens.Prelude.{
  ℕ, suc, ◌<◌, ◌≡◌, ◌≢◌, refl, sym, ap, ◌∙◌, Bool, [], ◌∷◌, ◌++◌, length, arith, last?, nat_eq,
  Option-cases, Bool-cases, inl, inr,
}
use pg_lens.Prelude.Text.{Text, codes}
use pg_lens.Recording.Dates.{latest, format_epoch_slug, parse_epoch_timestamp}
use pg_lens.Recording.Dates.Slug.{format-IsSlug, parse-format_slug}
use pg_lens.Recording.Names.{open_name, closed_name, to_mark, file_extension}
use pg_lens.Recording.Writer.{join}

-- Texts of one length in front of two equal texts are equal.
append_split : (s t u v : Text) → length s ≡ length t → s ++ u ≡ t ++ v → (s ≡ t) × (u ≡ v)
append_split [] [] u v e h = (refl, h)
append_split [] (d ∷ t) u v e h = absurd (omega (arith, e))
append_split (c ∷ s) [] u v e h = absurd (omega (arith, e))
append_split (c ∷ s) (d ∷ t) u v e h =
    let rest = append_split s t u v (omega (arith, e)) (cc) in (cc rest.0, rest.1)

pub join_injective : (dir : Text) {s t : Text} → join dir s ≡ join dir t → s ≡ t
unfolding join
join_injective dir {s} {t} h = elim (Option-cases (last? dir)) [
  | inl e ↦ rw (join, e) at h
  | inr (c, e) ↦ elim (Bool-cases (nat_eq c b'/')) [
    | inl q ↦ append_cancel_left dir s t (rw (join, e, q) at h)
    | inr q ↦ cc (append_cancel_left dir (b'/' ∷ s) (b'/' ∷ t) (rw (join, e, q) at h))
  ]
]

size-slug : (n : ℕ) → n < latest → length (format_epoch_slug n) ≡ 15
size-slug n h = let v = format-IsSlug n h in ap length v.parts ∙ ap suc v.size

slug_injective :
    (m n : ℕ) → m < latest → n < latest → format_epoch_slug m ≡ format_epoch_slug n → m ≡ n
slug_injective m n hm hn e =
    cc (parse-format_slug m hm, parse-format_slug n hn, ap parse_epoch_timestamp e)

cancel_target :
    (target s t : Text)
    → codes "rec-" ++ (target ++ b'-' ∷ s) ≡ codes "rec-" ++ (target ++ b'-' ∷ t)
    → s ≡ t
cancel_target target s t h = cc (
    append_cancel_left target (b'-' ∷ s) (b'-' ∷ t)
      (append_cancel_left (codes "rec-") (target ++ b'-' ∷ s) (target ++ b'-' ∷ t) h))

abbrev first_byte : Text → ℕ
first_byte [] = 0
first_byte (c ∷ s) = c

-- What stands behind the start in the names of closed and of open files.
abbrev ending : ℕ → Bool → Text
ending e compress = to_mark ++ (format_epoch_slug e ++ b'.' ∷ file_extension compress)

-- A closed file has another name than one that was begun at another time.
pub closed_name-ne :
    (target : Text) (s s' e e' : ℕ) (compress : Bool)
    → s < latest
    → s' < latest
    → s ≢ s'
    → closed_name target s e compress ≢ closed_name target s' e' compress
unfolding closed_name
closed_name-ne target s s' e e' compress h h' ne same =
    let slugs =
      append_split (format_epoch_slug s) (format_epoch_slug s') (ending e compress)
        (ending e' compress) (size-slug s h ∙ sym (size-slug s' h'))
        (cancel_target target (format_epoch_slug s ++ ending e compress)
          (format_epoch_slug s' ++ ending e' compress) same) in
    ne (slug_injective s s' h h' slugs.0)

-- An open file has another name than a closed one.
pub open_name-ne-closed_name :
    (target : Text) (n s e : ℕ) (compress : Bool)
    → n < latest
    → s < latest
    → open_name target n compress ≢ closed_name target s e compress
unfolding open_name closed_name
open_name-ne-closed_name target n s e compress h h' same =
    let slugs =
      append_split (format_epoch_slug n) (format_epoch_slug s) (b'.' ∷ file_extension compress)
        (ending e compress) (size-slug n h ∙ sym (size-slug s h'))
        (cancel_target target (format_epoch_slug n ++ b'.' ∷ file_extension compress)
          (format_epoch_slug s ++ ending e compress) same) in
    absurd (omega (arith, ap first_byte slugs.1))
