-- ===== src/Cluster/Tests.antt =====
-- The slots of some keys.
use void_cache.Prelude.{◌==◌, not, ℕ, ◌≡◌, ◌≢◌, ◌%◌, ◌^◌, ◌*◌, arith, [], ◌∷◌, ◌++◌, get_or}
use void_cache.Cluster.{crc16_tab, vc_crc16, vc_key_slot}
use void_cache.Cluster.Slots.{is_wrong, bits, vc_key_slot-tag, crc16_tab-bits}

not_open : ◌≢◌ {A = ℕ} b'a' b'{'
not_open e = omega (arith, e)

not_close : ◌≢◌ {A = ℕ} b't' b'}'
not_close e = omega (arith, e)

vc_key_slot-tag_example :
    vc_key_slot ((b'a' ∷ []) ++ (b'{' ∷ ((b't' ∷ []) ++ (b'}' ∷ b'z' ∷ []))))
    ≡ vc_crc16 (b't' ∷ []) % 16384
vc_key_slot-tag_example =
    vc_key_slot-tag (b'a' ∷ []) (b'z' ∷ []) b't' [] (not_open, tt) (not_close, tt)

crc16_tab-bits_example : (get_or crc16_tab 64 0 == bits 8 (64 * 2 ^ 8)) ≡ not (is_wrong 64)
crc16_tab-bits_example = crc16_tab-bits 64 (omega arith)
