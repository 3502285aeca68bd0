-- ===== src/Atom/Tests.antt =====
-- The reader of notifications at a feed with a deletion and an update.
use yt_websub.Prelude.{◌≡◌, ◌++◌, refl, Bytes, codes, All, List, [], ◌∷◌}
use yt_websub.Text.Utf8.{from_utf8_lossy}
use yt_websub.Atom.{Entry, parse}
use yt_websub.Atom.Read.{IsText}
use yt_websub.Atom.Rounds.{Deletes, Enters, parse_ends}
use yt_websub.Atom.Shape.{IsWellFormed, parse-IsWellFormed}

abbrev feed : Bytes
feed =
    codes
      "<feed><at:deleted-entry ref=\"yt:video:abcdefghijk\"></at:deleted-entry><entry><yt:videoId>ABCDEFGHIJ_</yt:videoId><yt:channelId>UCabcdefghijklmnopqrstuv</yt:channelId><title>a &amp;lt; b</title><published>1</published><updated> 2 </updated></entry></feed>"

feed_test :
    parse feed
    ≡ (record {
      kind = codes "deleted";
      channel_id = [];
      video_id = codes "abcdefghijk";
      title = [];
      ts = [];
    })
      ∷ (record {
        kind = codes "updated";
        channel_id = codes "UCabcdefghijklmnopqrstuv";
        video_id = codes "ABCDEFGHIJ_";
        title = codes "a &lt; b";
        ts = codes "2";
      })
      ∷ []
unfolding parse yt_websub.Prelude.◌=b◌
feed_test = refl

parse-IsWellFormed_example : All IsWellFormed (parse feed)
parse-IsWellFormed_example = parse-IsWellFormed feed

parse_ends_example :
    (deleted : List Entry) × (entered : List Entry) × Deletes
      (from_utf8_lossy (0xFF ∷ feed))
      deleted
    × Enters (from_utf8_lossy (0xFF ∷ feed)) entered
    × (parse (from_utf8_lossy (0xFF ∷ feed)) ≡ deleted ++ entered)
    × All IsText (parse (from_utf8_lossy (0xFF ∷ feed)))
parse_ends_example = parse_ends (0xFF ∷ feed)
