-- ===== src/Examples/WebCache.antt =====
-- A cache of eight bytes with one entry.
use termlm.Base.{◌≤◌, [], ◌∷◌, some, ◌≡◌, refl, arith}
use termlm.Base.Text.{Text, codes, eq_text, byte_len, len_utf8}
use termlm.WebCache.{
  WebCache, find, delete, without, drop_entry, discard, get, store, evict, insert,
}
use termlm.WebCache.Bounds.{IsValid, insert-IsValid}
use termlm.WebCache.Lookup.{Looked, get-IsValid}
use termlm.WebCache.Recall.{find-insert}

abbrev page : Text
page = codes "http://a"

abbrev held : WebCache
held = record {
  entries = (page, record { body = codes "1111"; size_bytes = 4; created_at = 10 }) ∷ [];
  order = page ∷ [];
  max_bytes = 8;
  total_bytes = 4;
  ttl = 60;
}

held-IsValid : IsValid held
unfolding eq_text
held-IsValid = record { distinct = (refl, tt); counted = refl; ordered = (refl, tt) }

-- Both bodies do not fit, so the older goes.
evicted : (insert (codes "http://b") (codes "22222") 20 held).total_bytes ≡ 5
unfolding insert store drop_entry evict discard find delete without eq_text byte_len len_utf8
evicted = refl

insert-IsValid_example :
    IsValid (insert (codes "http://b") (codes "22222") 20 held)
    × ((insert (codes "http://b") (codes "22222") 20 held).total_bytes ≤ 8)
    × ((insert (codes "http://b") (codes "22222") 20 held).max_bytes ≡ 8)
insert-IsValid_example = insert-IsValid (codes "http://b") (codes "22222") 20 held held-IsValid

get-IsValid_example : Looked page 20 held (get page 20 held)
get-IsValid_example = get-IsValid page 20 held held-IsValid

five_bytes : byte_len (codes "22222") ≤ 8
unfolding byte_len len_utf8
five_bytes = omega arith

find-insert_example :
    find (codes "http://b") (insert (codes "http://b") (codes "22222") 20 held).entries
    ≡ some (record { body = codes "22222"; size_bytes = byte_len (codes "22222"); created_at = 20 })
find-insert_example = find-insert (codes "http://b") (codes "22222") 20 held held-IsValid five_bytes
