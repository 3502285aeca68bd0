-- ===== src/Atom.antt =====
-- The reader of the hub's notifications, src/atom.rs.
pub mod Shape
pub mod Texts
pub mod Read
pub mod Rounds
mod Tests
use mathlib.Core.Option
use yt_websub.Prelude.{
  ℕ, zero, suc, ◌+◌, ◌-◌, Bool, true, false, ◌&&◌, ◌||◌, not, Option, none, some, List, [], ◌∷◌,
  ◌++◌, Bytes, String, codes, ltb, leb, ◌==◌, ◌=b◌, if◌then◌else◌, ◌>>=◌, length, take, drop, all,
  get_or,
}
use yt_websub.Text.Find.{find}
use yt_websub.Text.Pieces.{starts_with}
use yt_websub.Text.Space.{trim}
use yt_websub.Resolve.{is_id_byte, is_channel_id}
use yt_websub.Subs.Rows.{take_chars}

pub record Entry : Type 0 where
  pub kind : Bytes
  pub channel_id : Bytes
  pub video_id : Bytes
  pub title : Bytes
  pub ts : Bytes

unfoldable pub between : Bytes → Bytes → Bytes → Option Bytes
unfolding find
between s from to = do
  i ← find from s
  j ← find to (drop (i + length from) s)
  some (take j (drop (i + length from) s))

-- `o.or_else(|| other)`
abbrev pub or_else : Option Bytes → Option Bytes → Option Bytes
or_else none other = other
or_else (some x) other = some x

unfoldable pub tag : Bytes → Bytes → Option Bytes
unfolding between
tag s name =
    or_else (between s (codes "<yt:" ++ name ++ codes ">") (codes "</yt:" ++ name ++ codes ">"))
      (between s (codes "<" ++ name ++ codes ">") (codes "</" ++ name ++ codes ">"))

-- `s.replace(p, r)`, from which the next `skip` bytes are part of an occurrence.
unfoldable pub replace_from : ℕ → Bytes → Bytes → Bytes → Bytes
unfolding starts_with
replace_from skip p r [] = []
replace_from (suc skip) p r (c ∷ s) = replace_from skip p r s
replace_from zero p r (c ∷ s) =
    let hit = r ++ replace_from (length p - 1) p r s in
    let miss = c ∷ replace_from 0 p r s in if starts_with p (c ∷ s) then hit else miss

abbrev pub replace : String → String → Bytes → Bytes
replace p r s = replace_from 0 (codes p) (codes r) s

unfoldable pub decode_entities : Bytes → Bytes
unfolding replace_from
decode_entities s = replace "&amp;" "&" (
    replace "&apos;" "'"
      (replace "&#39;" "'" (replace "&quot;" "\"" (replace "&gt;" ">" (replace "&lt;" "<" s)))))

unfoldable pub is_video_id : Bytes → Bool
unfolding all
is_video_id s = length s == 11 && all is_id_byte s

-- The candidate behind one marker.
unfoldable pub channel_at : Bytes → Bytes → Option Bytes
unfolding find take_chars all starts_with
channel_at s marker = do
  pos ← find marker s
  let cand = take_chars 24 (drop (pos + length marker - 2) s) in
      if length cand == 24 && starts_with (codes "UC") cand && all is_id_byte cand
      then some cand
      else none

unfoldable pub find_channel_id : Bytes → Option Bytes
unfolding channel_at
find_channel_id s =
    or_else (channel_at s (codes "<yt:channelId>UC"))
      (or_else (channel_at s (codes "/channel/UC")) (channel_at s (codes "channel_id=UC")))

unfoldable pub deleted_entry : Bytes → List Entry
unfolding between trim is_video_id find_channel_id
deleted_entry block =
    let video =
      get_or (Option.map trim (between block (codes "ref=\"yt:video:") (codes "\""))) [] in
    if is_video_id video
    then (record {
      kind = codes "deleted";
      channel_id = get_or (find_channel_id block) [];
      video_id = video;
      title = [];
      ts = [];
    })
      ∷ []
    else []

-- Where the block that begins at `pos` ends.
unfoldable pub deleted_end : ℕ → Bytes → ℕ
unfolding find
deleted_end pos rest = elim (find (codes "</at:deleted-entry>") (drop pos rest)) [
  | none ↦ length rest
  | some e ↦ pos + e + length (codes "</at:deleted-entry>")
]

-- The first loop of `parse`, at most `fuel` rounds of it.
unfoldable pub deletions : ℕ → Bytes → List Entry
unfolding find deleted_entry deleted_end
deletions zero rest = []
deletions (suc fuel) rest = elim (find (codes "<at:deleted-entry") rest) [
  | none ↦ []
  | some pos ↦
      deleted_entry (take (deleted_end pos rest - pos) (drop pos rest))
      ++ deletions fuel (drop (deleted_end pos rest) rest)
]

abbrev pub kind_of : Option Bytes → Option Bytes → Bytes
kind_of (some p) (some u) = if p =b u then codes "new" else codes "updated"
kind_of _ _ = codes "new"

unfoldable pub new_entry : Bytes → Bytes → Bytes → Entry
unfolding tag trim decode_entities
new_entry block video channel =
    let published = Option.map trim (tag block (codes "published")) in
    let updated = Option.map trim (tag block (codes "updated")) in
    record {
      kind = kind_of published updated;
      channel_id = channel;
      video_id = video;
      title = get_or (Option.map (λ t. decode_entities (trim t)) (tag block (codes "title"))) [];
      ts = get_or (or_else updated published) [];
    }

abbrev checked_channel : Option Bytes → Option Bytes
checked_channel none = none
checked_channel (some c) = if is_channel_id c then some c else none

unfoldable pub accepted : Bytes → Option Bytes → Option Bytes → List Entry
unfolding new_entry is_video_id is_channel_id
accepted block (some video) (some channel) =
    if is_video_id video && is_channel_id channel then new_entry block video channel ∷ [] else []
accepted block _ _ = []

unfoldable pub entry : Bytes → List Entry
unfolding tag trim is_channel_id find_channel_id accepted
entry block = accepted block (Option.map trim (tag block (codes "videoId"))) (
    or_else (checked_channel (Option.map trim (tag block (codes "channelId"))))
      (find_channel_id block))

unfoldable pub entry_end : ℕ → Bytes → ℕ
unfolding find
entry_end from rest = elim (find (codes "</entry>") (drop from rest)) [
  | none ↦ length rest
  | some e ↦ from + e
]

-- The second loop of `parse`.
unfoldable pub entries : ℕ → Bytes → List Entry
unfolding find entry entry_end
entries zero rest = []
entries (suc fuel) rest = elim (find (codes "<entry>") rest) [
  | none ↦ []
  | some pos ↦
      (let start = pos + length (codes "<entry>") in
        let advance = entry_end start rest + length (codes "</entry>") in
        let more = entries fuel (drop advance rest) in
        entry (take (entry_end start rest - start) (drop start rest))
        ++ (if leb (length rest) advance then [] else more))
]

-- `parse`; a round takes at least a byte, so no text needs more rounds than it has bytes and one.
unfoldable pub parse : Bytes → List Entry
unfolding deletions entries
parse body = deletions (suc (length body)) body ++ entries (suc (length body)) body
