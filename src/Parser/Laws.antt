-- ===== src/Parser/Laws.antt =====
-- The hash and the fields of a config with the watermark.
use config_manager.Prelude.{◌≡◌, ◌≢◌, sym, true, false, some, ◌++◌}
use config_manager.Prelude.Text.{Text, codes, text_eq, starts_with}
use config_manager.Prelude.Case.{Unicode}
use config_manager.Utils.Codec.{
  str, Object, Codec, get_field, set_field, get_field-set_field_self, get_field-set_field_ne,
  vmess_payload, RoundTrips, vmess_payload-encode,
}
use config_manager.Utils.Dedup.{config_hash, config_hash-normalized}
use config_manager.Parser.{watermark_text, watermark_fragment, watermark_vmess, inject_watermark}

-- The watermark of a config that is no vmess link does not change the hash under which duplicates
-- are found.
pub config_hash-inject_watermark :
    (md5 : Text → Text) (u : Unicode) (codec : Codec) (channel config country : Text)
    → starts_with (codes "vmess://") config ≡ false
    → config_hash md5 (inject_watermark u codec channel config country) ≡ config_hash md5 config
unfolding inject_watermark watermark_fragment
config_hash-inject_watermark md5 u codec channel config country h =
    rw h (config_hash-normalized md5 config _)

module _ (u : Unicode) (codec : Codec) (channel config country : Text) (o : Object) where
  marked : Object
  marked = set_field (codes "ps") (str (watermark_text u channel country)) o

  inject_watermark_lem :
      starts_with (codes "vmess://") config ≡ true
      → codec.decode (vmess_payload config) ≡ some o
      → inject_watermark u codec channel config country ≡ codes "vmess://" ++ codec.encode marked
  unfolding inject_watermark watermark_vmess marked
  inject_watermark_lem v d = rw v (rw (d, watermark_vmess))

-- The watermark of a vmess link whose payload reads as the object `o` is a vmess link; its payload
-- reads back with the watermark in the field `ps` and every other field of `o` as it was.
pub inject_watermark-vmess :
    (u : Unicode) (codec : Codec) (channel config country : Text) (o : Object)
    → starts_with (codes "vmess://") config ≡ true
    → codec.decode (vmess_payload config) ≡ some o
    → RoundTrips codec (set_field (codes "ps") (str (watermark_text u channel country)) o)
    → (o' : Object) × (codec.decode
          (vmess_payload (inject_watermark u codec channel config country))
        ≡ some o')
      × (get_field (codes "ps") o' ≡ some (str (watermark_text u channel country)))
      × ((key : Text) → key ≢ codes "ps" → get_field key o' ≡ get_field key o)
unfolding marked
inject_watermark-vmess u codec channel config country o v d r =
    let mark = watermark_text u channel country in
    (
      set_field (codes "ps") (str mark) o,
      rw
          (
            inject_watermark_lem u codec channel config country o v d,
            vmess_payload-encode codec (set_field (codes "ps") (str mark) o) r,
          )
          r.decoded,
      get_field-set_field_self (codes "ps") mark o,
      λ key ne. get_field-set_field_ne (codes "ps") key mark o (λ e. ne (sym e)),
    )
