-- ===== src/Atom/Shape.antt =====
-- What `parse` of src/atom.rs lets through: entries with well-formed identifiers.
use mathlib.Core.Option
use mathlib.Core.Option.{some-injective, none-ne-some}
use yt_websub.Prelude.{
  ℕ, zero, suc, ◌+◌, ◌-◌, Bool, true, false, ◌&&◌, Option, none, some, List, [], ◌∷◌, ◌≡◌, ◌⊎◌, inl,
  inr, refl, subst, and-left, and-right, Bytes, codes, leb, ◌=b◌, if◌then◌else◌, >>=-eq-some,
  Bool-cases, Option-cases, length, take, drop, get_or, All, All-append,
}
use yt_websub.Text.Find.{find}
use yt_websub.Text.Space.{trim}
use yt_websub.Resolve.{is_channel_id}
use yt_websub.Atom.{
  Entry, or_else, is_video_id, channel_at, find_channel_id, deleted_entry, deleted_end, deletions,
  between, tag, kind_of, checked_channel, accepted, entry, entry_end, entries, parse,
}

-- A deletion names a video and perhaps a channel; a new or updated video names both.
abbrev pub IsWellFormed : Entry → Type 0
IsWellFormed e =
    (is_video_id (e.video_id) ≡ true)
    × (((e.kind ≡ codes "deleted") × ((e.channel_id ≡ []) ⊎ (is_channel_id (e.channel_id) ≡ true)))
        ⊎ (((e.kind ≡ codes "new") ⊎ (e.kind ≡ codes "updated"))
            × (is_channel_id (e.channel_id) ≡ true)))

-- What an option has is a channel id.
abbrev GivesChannel : Option Bytes → Type 0
GivesChannel o = (c : Bytes) → o ≡ some c → is_channel_id c ≡ true

guarded : (b : Bool) (x c : Bytes) → (if b then some x else none) ≡ some c → (b ≡ true) × (x ≡ c)
guarded true x c h = (refl, some-injective _ _ h)
guarded false x c h = absurd (none-ne-some c h)

channel_at-GivesChannel : (s marker : Bytes) → GivesChannel (channel_at s marker)
unfolding channel_at is_channel_id
channel_at-GivesChannel s marker c h =
    let (pos, e, k) = >>=-eq-some (find marker s) _ h in
    let (good, same) = guarded _ _ c k in subst (λ (t : Bytes). is_channel_id t ≡ true) same good

or_else-GivesChannel :
    (a b : Option Bytes) → GivesChannel a → GivesChannel b → GivesChannel (or_else a b)
or_else-GivesChannel none b ha hb = hb
or_else-GivesChannel (some x) b ha hb = ha

find_channel_id-GivesChannel : (s : Bytes) → GivesChannel (find_channel_id s)
unfolding find_channel_id
find_channel_id-GivesChannel s =
    or_else-GivesChannel (channel_at s (codes "<yt:channelId>UC"))
      (or_else (channel_at s (codes "/channel/UC")) (channel_at s (codes "channel_id=UC")))
      (channel_at-GivesChannel s (codes "<yt:channelId>UC"))
      (or_else-GivesChannel (channel_at s (codes "/channel/UC"))
        (channel_at s (codes "channel_id=UC")) (channel_at-GivesChannel s (codes "/channel/UC"))
        (channel_at-GivesChannel s (codes "channel_id=UC")))

absent_or_channel :
    (o : Option Bytes) → GivesChannel o → (get_or o [] ≡ []) ⊎ (is_channel_id (get_or o []) ≡ true)
absent_or_channel none h = inl refl
absent_or_channel (some c) h = inr (h c refl)

deletion : Bytes → Option Bytes → Entry
deletion video channel = record {
  kind = codes "deleted";
  channel_id = get_or channel [];
  video_id = video;
  title = [];
  ts = [];
}

checked-All :
    (video : Bytes) (channel : Option Bytes)
    → GivesChannel channel
    → All IsWellFormed (if is_video_id video then deletion video channel ∷ [] else [])
unfolding deletion
checked-All video channel h = elim (Bool-cases (is_video_id video)) [
  | inl e ↦ rw e ((e, inl (refl, absent_or_channel channel h)), tt)
  | inr e ↦ rw e tt
]

deleted_entry-All : (block : Bytes) → All IsWellFormed (deleted_entry block)
unfolding deleted_entry deletion
deleted_entry-All block =
    checked-All (get_or (Option.map trim (between block (codes "ref=\"yt:video:") (codes "\""))) [])
      (find_channel_id block) (find_channel_id-GivesChannel block)

pub kind_of-cases :
    (p u : Option Bytes) → (kind_of p u ≡ codes "new") ⊎ (kind_of p u ≡ codes "updated")
kind_of-cases none u = inl refl
kind_of-cases (some p) none = inl refl
kind_of-cases (some p) (some u) = elim (Bool-cases (p =b u)) [
  | inl e ↦ inl (rw e refl)
  | inr e ↦ inr (rw e refl)
]

accepted-All : (block : Bytes) (v c : Option Bytes) → All IsWellFormed (accepted block v c)
unfolding accepted
accepted-All block none c = tt
accepted-All block (some v) none = tt
accepted-All block (some v) (some c) = elim (Bool-cases (is_video_id v && is_channel_id c)) [
  | inl e ↦ rw e ((and-left _ _ e, inr (kind_of-cases _ _, and-right _ _ e)), tt)
  | inr e ↦ rw e tt
]

entry-All : (block : Bytes) → All IsWellFormed (entry block)
unfolding entry
entry-All block = accepted-All block (Option.map trim (tag block (codes "videoId"))) (
    or_else (checked_channel (Option.map trim (tag block (codes "channelId"))))
      (find_channel_id block))

deletions-All : (fuel : ℕ) (rest : Bytes) → All IsWellFormed (deletions fuel rest)
unfolding deletions
deletions-All zero rest = tt
deletions-All (suc fuel) rest = elim (Option-cases (find (codes "<at:deleted-entry") rest)) [
  | inl n ↦ rw (deletions, n) tt
  | inr (pos, e) ↦
      rw (deletions, e)
        (All-append IsWellFormed (deleted_entry (take (deleted_end pos rest - pos) (drop pos rest)))
          (deletions fuel (drop (deleted_end pos rest) rest))
          (deleted_entry-All (take (deleted_end pos rest - pos) (drop pos rest)))
          (deletions-All fuel (drop (deleted_end pos rest) rest)))
]

unless-All :
    (b : Bool) (more : List Entry)
    → All IsWellFormed more
    → All IsWellFormed (if b then [] else more)
unless-All true more h = tt
unless-All false more h = h

-- The block of an entry whose marker is at `pos`, and where the text goes on behind it.
abbrev block_at : ℕ → Bytes → Bytes
block_at pos rest = take (entry_end (pos + 7) rest - (pos + 7)) (drop (pos + 7) rest)

abbrev advance_at : ℕ → Bytes → ℕ
advance_at pos rest = entry_end (pos + 7) rest + 8

entries-All : (fuel : ℕ) (rest : Bytes) → All IsWellFormed (entries fuel rest)
unfolding entries
entries-All zero rest = tt
entries-All (suc fuel) rest = elim (Option-cases (find (codes "<entry>") rest)) [
  | inl n ↦ rw (entries, n) tt
  | inr (pos, e) ↦
      rw (entries, e)
        (All-append IsWellFormed (entry (block_at pos rest))
          (if leb (length rest) (advance_at pos rest)
            then []
            else entries fuel (drop (advance_at pos rest) rest))
          (entry-All (block_at pos rest))
          (unless-All (leb (length rest) (advance_at pos rest))
            (entries fuel (drop (advance_at pos rest) rest))
            (entries-All fuel (drop (advance_at pos rest) rest))))
]

-- Whatever text the hub sends, each entry read from it is well formed: it has a video's id, and a new
-- or updated one a channel's id as well, while that of a deletion may be empty.
pub parse-IsWellFormed : (body : Bytes) → All IsWellFormed (parse body)
unfolding parse
parse-IsWellFormed body =
    let f = suc (length body) in
    All-append IsWellFormed (deletions f body) (entries f body) (deletions-All f body)
      (entries-All f body)
