-- ===== src/Stream/Examples.antt =====
-- A range of a file of 20 bytes, from its request to its bytes, and a witness with it.
use mathlib.Core.List.{append-nil, map}
use mega_basterd_cli.Stream.Range.{
  check_bounds, of_parts, partition, of_partition, behind, of_spec, parse_range,
}
use mega_basterd_cli.Prelude.Slices.{slice}
use mega_basterd_cli.Prelude.{
  ℕ, zero, suc, ◌+◌, ◌-◌, ◌*◌, ◌%◌, true, false, Option, none, some, List, [], ◌∷◌, ◌++◌, ◌≡◌, refl,
  sym, ap, arith, length, drop, replicate, codes, ◌∙◌, ◌==◌, if◌then◌else◌,
}
use mega_basterd_cli.Json.{ℤ, pos}
use mega_basterd_cli.State.Hex.{Bytes}
use mega_basterd_cli.Crypto.Plain.{plain}
use mega_basterd_cli.Proxy.{select, ProxySelector}
use mega_basterd_cli.RangeReply.{
  check_length, check_total, total, digits, number, skip, strip_end, content_range, check_range,
  check_header, validate_range_response,
}
use mega_basterd_cli.Stream.Serve.{Reply, answered}
use mega_basterd_cli.Stream.Pumped.{join}
use mega_basterd_cli.Stream.Serve.{
  take_checked, take_answer, first_reply, first_proxy, open_upstream, send, serve_range, Source,
  Upstream, Ints, do_get,
}
use mega_basterd_cli.Stream.Honest.{IsRandomAccess, IsHonest}
use mega_basterd_cli.Stream.Served.{IsServed, do_get-IsServed}

abbrev byte : ℕ → ℕ
byte b = b % 256

length-map : (bs : Bytes) → length (map byte bs) ≡ length bs
length-map [] = refl
length-map (b ∷ bs) = ap suc (length-map bs)

map-append : (a b : Bytes) → map byte (a ++ b) ≡ map byte a ++ drop (length a) (map byte (a ++ b))
map-append [] b = refl
map-append (x ∷ a) b = ap (λ (l : Bytes). byte x ∷ l) (map-append a b)

map-drop : (n : ℕ) (bs : Bytes) → map byte (drop n bs) ≡ drop n (map byte bs)
map-drop zero bs = refl
map-drop (suc n) [] = refl
map-drop (suc n) (b ∷ bs) = map-drop n bs

random : IsRandomAccess plain
random = record {
  bytewise = record {
    same_length = λ key nonce counter bs. length-map bs;
    first_bytes = λ key nonce counter a b. map-append a b;
  };
  from_block = λ key nonce bs k. map-drop (k * 16) bs;
}

abbrev encrypted : Bytes
encrypted = replicate 16 1 ++ (2 ∷ 3 ∷ 4 ∷ 5 ∷ [])

abbrev source : Source
source = record { size = 20; aes_key = replicate 16 5; nonce = replicate 8 6 }

-- `int` of the two texts of the request
abbrev number_of : List ℕ → Option ℤ
number_of (a ∷ b ∷ []) = if b == b'7' then some (pos 17) else some (pos 18)
number_of _ = none

abbrev ints : Ints
ints = record { of_range = number_of; of_length = λ s. some (pos 3) }

abbrev upstream : Upstream
upstream = record {
  moment = record { now = 1; choose = λ l. 0 };
  reply = λ start stop.
      answered 206
        (record { content_range_header = some "bytes 16-18/20"; content_length_header = some "3" })
        (slice start (stop + 1 - start) encrypted ∷ []) true;
  refreshes = true;
}

abbrev blocks_of : Reply → List Bytes
blocks_of (answered status headers blocks whole) = blocks
blocks_of _ = []

honest : IsHonest plain ints source encrypted upstream
honest start stop status headers blocks whole e v = (
  [],
  sym (append-nil (slice start (stop + 1 - start) encrypted))
      ∙ ap join (ap blocks_of e)
      ∙ sym (append-nil (join blocks)),
)

abbrev direct : ProxySelector
direct = record { pool = none; static = none; force = false }

do_get-IsServed_example :
    IsServed plain ints source encrypted random
      (codes "bytes=17-18")
      (do_get plain ints source upstream upstream (λ n. true) (codes "bytes=17-18") direct).0
do_get-IsServed_example =
    do_get-IsServed plain ints source encrypted random upstream upstream (omega arith) honest honest
      (λ n. true) (codes "bytes=17-18") direct

-- It is not refused.
asked :
    (do_get plain ints source upstream upstream (λ n. true) (codes "bytes=17-18") direct).0.status
    ≡ 206
unfolding do_get serve_range parse_range of_spec behind of_partition partition of_parts check_bounds
    send open_upstream first_proxy select first_reply take_answer take_checked
    validate_range_response check_header check_range content_range strip_end skip number digits
    total check_total check_length
asked = refl
