-- ===== src/Atom/Read.antt =====
-- The entries that `parse` of src/atom.rs reads from text in UTF-8 have texts in UTF-8.
use mathlib.Core.Option
use yt_websub.Prelude.{
  ℕ, zero, suc, ◌+◌, ◌-◌, true, ◌&&◌, Option, none, some, [], ◌∷◌, ◌≡◌, ◌==◌, inl, inr, refl, sym,
  ap, ◌∙◌, subst, and-left, and-right, arith, Bytes, codes, leb, if◌then◌else◌, Bool-cases,
  Option-cases, length, take, drop, take_all, drop_all, drop-drop, length-drop, get_or, All,
  All-append, all,
}
use yt_websub.Text.Utf8.{is_utf8, is_utf8-ascii}
use yt_websub.Text.Find.{find}
use yt_websub.Text.Space.{trim}
use yt_websub.Text.Space.Trimmed.{trim-IsUtf8}
use yt_websub.Text.Cut.{IsAscii, take-find, drop-find}
use yt_websub.Resolve.{is_id_byte, is_channel_id}
use yt_websub.Atom.{
  Entry, or_else, between, tag, decode_entities, new_entry, accepted, entry, entry_end, entries,
  deleted_entry, deleted_end, deletions, is_video_id, kind_of, parse, find_channel_id,
  checked_channel,
}
use yt_websub.Atom.Shape.{kind_of-cases}
use yt_websub.Atom.Texts.{
  IsUtf8, all-IsAscii, GivesUtf8, or_else-GivesUtf8, map-GivesUtf8, get_or-IsUtf8, tag-GivesUtf8,
  decode_entities-IsUtf8,
}

-- The texts of an entry are UTF-8, as each `String` is.
pub record IsText (n : Entry) : Type 0 where
  pub kind_utf8 : is_utf8 n.kind ≡ true
  pub video_utf8 : is_utf8 n.video_id ≡ true
  pub ts_utf8 : is_utf8 n.ts ≡ true
  pub title_utf8 : is_utf8 n.title ≡ true

id_byte-IsAscii : (s : Bytes) → all is_id_byte s ≡ true → IsAscii s
unfolding all
id_byte-IsAscii [] h = tt
id_byte-IsAscii (c ∷ s) h =
    let one : is_id_byte c ≡ true = and-left _ _ h in
    (ground arith, id_byte-IsAscii s (and-right _ _ h))

video_id-IsUtf8 : (s : Bytes) → is_video_id s ≡ true → IsUtf8 s
unfolding is_video_id
video_id-IsUtf8 s h = is_utf8-ascii s (id_byte-IsAscii s (and-right (length s == 11) _ h))

kind_of-IsUtf8 : (p u : Option Bytes) → IsUtf8 (kind_of p u)
unfolding all
kind_of-IsUtf8 p u = elim (kind_of-cases p u) [
  | inl e ↦ subst IsUtf8 (sym e) (is_utf8-ascii (codes "new") (all-IsAscii (codes "new") refl))
  | inr e ↦
      subst IsUtf8 (sym e) (is_utf8-ascii (codes "updated") (all-IsAscii (codes "updated") refl))
]

field-GivesUtf8 :
    (block name : Bytes)
    → IsAscii name
    → IsUtf8 block
    → GivesUtf8 (Option.map trim (tag block name))
field-GivesUtf8 block name small valid =
    map-GivesUtf8 trim (tag block name) trim-IsUtf8 (tag-GivesUtf8 block name small valid)

new_entry-IsText :
    (block video channel : Bytes)
    → IsUtf8 block
    → is_video_id video ≡ true
    → IsText (new_entry block video channel)
unfolding new_entry all
new_entry-IsText block video channel valid good =
    let updated =
      field-GivesUtf8 block (codes "updated") (all-IsAscii (codes "updated") refl) valid in
    let published =
      field-GivesUtf8 block (codes "published") (all-IsAscii (codes "published") refl) valid in
    record {
      kind_utf8 =
          kind_of-IsUtf8 (Option.map trim (tag block (codes "published")))
            (Option.map trim (tag block (codes "updated")));
      video_utf8 = video_id-IsUtf8 video good;
      ts_utf8 =
          get_or-IsUtf8
            (or_else (Option.map trim (tag block (codes "updated")))
              (Option.map trim (tag block (codes "published"))))
            (or_else-GivesUtf8 (Option.map trim (tag block (codes "updated")))
              (Option.map trim (tag block (codes "published"))) updated published);
      title_utf8 =
          get_or-IsUtf8 (Option.map (λ t. decode_entities (trim t)) (tag block (codes "title"))) (
            map-GivesUtf8 (λ t. decode_entities (trim t)) (tag block (codes "title"))
              (λ t h. decode_entities-IsUtf8 (trim t) (trim-IsUtf8 t h))
              (tag-GivesUtf8 block (codes "title") (all-IsAscii (codes "title") refl) valid));
    }

accepted-IsText :
    (block : Bytes) (v c : Option Bytes) → IsUtf8 block → All IsText (accepted block v c)
unfolding accepted
accepted-IsText block none c valid = tt
accepted-IsText block (some v) none valid = tt
accepted-IsText block (some v) (some c) valid =
    elim (Bool-cases (is_video_id v && is_channel_id c)) [
      | inl e ↦ rw e (new_entry-IsText block v c valid (and-left _ _ e), tt)
      | inr e ↦ rw e tt
    ]

entry-IsText : (block : Bytes) → IsUtf8 block → All IsText (entry block)
unfolding entry
entry-IsText block = accepted-IsText block (Option.map trim (tag block (codes "videoId"))) (
    or_else (checked_channel (Option.map trim (tag block (codes "channelId"))))
      (find_channel_id block))

-- The texts of a deletion are the id of its video, which is ASCII, and constants.
deletion-IsText :
    (video channel : Bytes)
    → is_video_id video ≡ true
    → IsText (record {
      kind = codes "deleted";
      channel_id = channel;
      video_id = video;
      title = [];
      ts = [];
    })
unfolding all is_utf8
deletion-IsText video channel good = record {
  kind_utf8 = is_utf8-ascii (codes "deleted") (all-IsAscii (codes "deleted") refl);
  video_utf8 = video_id-IsUtf8 video good;
  ts_utf8 = refl;
  title_utf8 = refl;
}

deleted_entry-IsText : (block : Bytes) → All IsText (deleted_entry block)
unfolding deleted_entry
deleted_entry-IsText block =
    checked (get_or (Option.map trim (between block (codes "ref=\"yt:video:") (codes "\""))) [])
      (get_or (find_channel_id block) [])
  where
    checked :
        (video channel : Bytes)
        → All IsText (
            if is_video_id video
            then (record {
              kind = codes "deleted";
              channel_id = channel;
              video_id = video;
              title = [];
              ts = [];
            })
              ∷ []
            else [])
    checked video channel = elim (Bool-cases (is_video_id video)) [
      | inl e ↦ rw e (deletion-IsText video channel e, tt)
      | inr e ↦ rw e tt
    ]

deletions-IsText : (fuel : ℕ) (rest : Bytes) → All IsText (deletions fuel rest)
unfolding deletions
deletions-IsText zero rest = tt
deletions-IsText (suc fuel) rest = elim (Option-cases (find (codes "<at:deleted-entry") rest)) [
  | inl n ↦ rw (deletions, n) tt
  | inr (pos, e) ↦
      (let end = deleted_end pos rest in
        rw (deletions, e)
          (All-append IsText (deleted_entry (take (end - pos) (drop pos rest)))
            (deletions fuel (drop end rest))
            (deleted_entry-IsText (take (end - pos) (drop pos rest)))
            (deletions-IsText fuel (drop end rest))))
]

-- The block of an entry ends at its closing marker or with the text.
block-IsUtf8 :
    (from : ℕ) (rest : Bytes)
    → IsUtf8 (drop from rest)
    → IsUtf8 (take (entry_end from rest - from) (drop from rest))
      × IsUtf8 (drop (entry_end from rest + 8) rest)
unfolding entry_end is_utf8 all
block-IsUtf8 from rest valid = elim (Option-cases (find (codes "</entry>") (drop from rest))) [
  | inl n ↦
      rw (entry_end, n)
        (
          subst IsUtf8
              (sym (
                take_all (length rest - from) (drop from rest)
                  (omega (arith, length-drop from rest))))
              valid,
          subst IsUtf8 (sym (drop_all (length rest + 8) rest (omega arith))) refl,
        )
  | inr (e, k) ↦
      (let small = all-IsAscii (codes "/entry>") refl in
        let same : from + e - from ≡ e = omega arith in
        let far : from + (e + 8) ≡ from + e + 8 = omega arith in
        rw (entry_end, k)
          (
            subst (λ (n : ℕ). IsUtf8 (take n (drop from rest))) (sym same)
                (take-find b'<' (codes "/entry>") (drop from rest) e (omega arith, small) k valid),
            subst IsUtf8 (drop-drop (e + 8) from rest ∙ ap (λ (n : ℕ). drop n rest) far)
                (drop-find b'<' (codes "/entry>") (drop from rest) e (omega arith, small) k valid),
          ))
]

entries-IsText : (fuel : ℕ) (rest : Bytes) → IsUtf8 rest → All IsText (entries fuel rest)
unfolding entries all
entries-IsText zero rest valid = tt
entries-IsText (suc fuel) rest valid = elim (Option-cases (find (codes "<entry>") rest)) [
  | inl n ↦ rw (entries, n) tt
  | inr (pos, e) ↦
      (let from = pos + 7 in
        let advance = entry_end from rest + 8 in
        let (block, behind) = block-IsUtf8 from rest (
          drop-find b'<' (codes "entry>") rest pos (omega arith, all-IsAscii (codes "entry>") refl)
            e valid) in
        rw (entries, e)
          (All-append IsText (entry (take (entry_end from rest - from) (drop from rest)))
            (if leb (length rest) advance then [] else entries fuel (drop advance rest))
            (entry-IsText (take (entry_end from rest - from) (drop from rest)) block)
            (elim (Bool-cases (leb (length rest) advance)) [
              | inl last ↦ rw last tt
              | inr more ↦ rw more (entries-IsText fuel (drop advance rest) behind)
            ])))
]

pub parse-IsText : (body : Bytes) → IsUtf8 body → All IsText (parse body)
unfolding parse
parse-IsText body valid =
    let rounds = suc (length body) in
    All-append IsText (deletions rounds body) (entries rounds body) (deletions-IsText rounds body)
      (entries-IsText rounds body valid)
