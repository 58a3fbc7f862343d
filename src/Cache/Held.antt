-- ===== src/Cache/Held.antt =====
-- An entry that a level can answer with: the stored text is read as it (cache/l1/bigcache.go,
-- cache/l2/keydb.go).
use proxy_common.Common.{◌≡◌, sym, ◌∙◌, ap, Option, some, some_inj, ℤ}
use proxy_common.Common.Bytes.{Bytes}
use proxy_common.Models.{CacheEntry, Ttl}
use proxy_common.Cache.{new_entry}
use proxy_common.Cache.L1.{Codec, CodecLaws}

module _ (codec : Codec) where
  pub record IsHeld (stored : Option Bytes) (e : CacheEntry) : Type 0 where
    pub text : Bytes
    pub found : stored ≡ some text
    pub decoded : codec.unmarshal text ≡ some e

  -- what is held depends on the text
  pub IsHeld-text :
      {stored stored' : Option Bytes} {e : CacheEntry} (h : IsHeld stored' e)
      → stored ≡ some h.text
      → IsHeld stored e
  IsHeld-text h found = record { text = h.text; found = found; decoded = h.decoded }

  -- the encoding of a new entry holds it
  pub IsHeld-marshal :
      (laws : CodecLaws codec) (now : ℤ) (val d : Bytes) (ttl : Ttl) (stored : Option Bytes)
      (e : CacheEntry) (h : IsHeld stored e)
      → codec.marshal (new_entry now val ttl) ≡ some d
      → h.text ≡ d
      → e ≡ new_entry now val ttl
  IsHeld-marshal laws now val d ttl stored e h encoded new = some_inj (
      sym h.decoded
      ∙ ap codec.unmarshal new
      ∙ laws.unmarshal-marshal (new_entry now val ttl) d encoded)
