-- ===== src/Api/Blind.antt =====
-- GET /api/channels of src/api.rs tells nothing of tokens and secrets.
use yt_websub.Prelude.{
  suc, List, [], ◌∷◌, ◌≡◌, inl, inr, refl, sym, ap, ◌∙◌, Bytes, Bool-cases, length, map,
}
use yt_websub.Prelude.Maps.{Table}
use yt_websub.Subs.{Sub}
use yt_websub.App.{App, json}
use yt_websub.Api.{get_channels}
use yt_websub.Api.Json.{
  text_le, insert_sorted, sorted_subs, channel_json, channel_texts, channels_json,
}

-- A subscription without what must not be told.
abbrev pub blind : Sub → Sub
blind s = record s { token = []; secret = [] }

abbrev pub blind_all : Table Sub → Table Sub
blind_all [] = []
blind_all ((c, s) ∷ m) = (c, blind s) ∷ blind_all m

insert_sorted-blind :
    (s : Sub) (l : List Sub) → insert_sorted (blind s) (map blind l) ≡ map blind (insert_sorted s l)
unfolding insert_sorted
insert_sorted-blind s [] = refl
insert_sorted-blind s (t ∷ more) = elim (Bool-cases (text_le (s.channel_id) (t.channel_id))) [
  | inl e ↦ rw e refl
  | inr e ↦ rw e (ap (λ (l : List Sub). blind t ∷ l) (insert_sorted-blind s more))
]

sorted_subs-blind : (m : Table Sub) → sorted_subs (blind_all m) ≡ map blind (sorted_subs m)
unfolding sorted_subs
sorted_subs-blind [] = refl
sorted_subs-blind ((c, s) ∷ m) =
    ap (insert_sorted (blind s)) (sorted_subs-blind m) ∙ insert_sorted-blind s (sorted_subs m)

channel_texts-blind : (l : List Sub) → channel_texts (map blind l) ≡ channel_texts l
unfolding channel_json
channel_texts-blind [] = refl
channel_texts-blind (s ∷ l) = ap (λ (t : List Bytes). channel_json s ∷ t) (channel_texts-blind l)

length-blind : (l : List Sub) → length (map blind l) ≡ length l
length-blind [] = refl
length-blind (s ∷ l) = ap suc (length-blind l)

channels_json-blind : (l : List Sub) → channels_json (map blind l) ≡ channels_json l
unfolding channels_json
channels_json-blind l = rw (channel_texts-blind l, length-blind l) refl

told-blind :
    (m : Table Sub) → channels_json (sorted_subs (blind_all m)) ≡ channels_json (sorted_subs m)
told-blind m = ap channels_json (sorted_subs-blind m) ∙ channels_json-blind (sorted_subs m)

-- Two states whose subscriptions differ in tokens and secrets only get the same answer.
pub get_channels-blind :
    (a b : App)
    → blind_all (a.subs.sub_map) ≡ blind_all (b.subs.sub_map)
    → (get_channels a).1 ≡ (get_channels b).1
unfolding get_channels
get_channels-blind a b same = ap (json 200) (
    sym (told-blind (a.subs.sub_map))
    ∙ ap (λ (m : Table Sub). channels_json (sorted_subs m)) same
    ∙ told-blind (b.subs.sub_map))
