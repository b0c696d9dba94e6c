-- ===== src/Tests/Util.antt =====
-- boa/util at concrete inputs.
use titanoboa.Prelude.{
  ℕ, ◌*◌, ◌≡◌, refl, inl, none, some, [], ◌∷◌, arith, length, take, drop, replicate, nat_eq,
  string_eq, bytes_eq, pair_eq,
}
use titanoboa.Prelude.Dict.{Dict}
use titanoboa.Prelude.Result.{ok}
use titanoboa.Prelude.Bytes.{Bytes, slice, ljust, from_bytes}
use titanoboa.Util.Lrudict.{put, get, Lrudict}
use titanoboa.Util.Lrudict.Bounds.{IsBounded}
use titanoboa.Util.Lrudict.Recency.{calls-IsLatest, queue, IsLatest}
use titanoboa.Util.Lrudict.Memo.{calls-eq-map, calls}
use titanoboa.Util.Eip1167.{is_eip1167_contract, extract_eip1167_address}
use titanoboa.Util.Eip1167.Proxy.{is_eip1167_contract-proxy, extract-proxy, proxy}
use titanoboa.Util.Eip5202.{generate_blueprint_bytecode, parse_erc5202}
use titanoboa.Util.Eip5202.Roundtrip.{parse-encode, generate_roundtrip, encode}

abbrev table : Dict ℕ ℕ
table = (1, 10) ∷ (2, 20) ∷ []

abbrev cache : Lrudict ℕ ℕ
cache = record { n = 2; entries = table }

abbrev ten_times : ℕ → ℕ
ten_times k = k * 10

cache-IsBounded : IsBounded cache
cache-IsBounded = record {
  distinct = (refl, (refl, tt));
  within = omega arith;
  positive = omega arith;
}

cache-IsLatest : IsLatest table cache
cache-IsLatest = record { older = []; split = refl; full = inl refl; distinct = (refl, (refl, tt)) }

calls-eq-map_example :
    ((calls ten_times (2 ∷ 3 ∷ 1 ∷ []) cache).0 ≡ ok 20 ∷ ok 30 ∷ ok 10 ∷ [])
    × IsBounded (calls ten_times (2 ∷ 3 ∷ 1 ∷ []) cache).1
calls-eq-map_example =
    calls-eq-map ten_times (2 ∷ 3 ∷ 1 ∷ []) cache cache-IsBounded (refl, (refl, tt))

calls-IsLatest_example :
    IsLatest (queue ten_times (2 ∷ 3 ∷ []) table) (calls ten_times (2 ∷ 3 ∷ []) cache).1
calls-IsLatest_example =
    calls-IsLatest ten_times (2 ∷ 3 ∷ []) table cache cache-IsBounded (refl, (refl, tt))
      cache-IsLatest

get_example : (get 1 cache).1.entries ≡ (2, 20) ∷ (1, 10) ∷ []
unfolding get
get_example = refl

evicts : (put 3 30 cache).1.entries ≡ (2, 20) ∷ (3, 30) ∷ []
unfolding put
evicts = refl

abbrev wallet : Bytes
wallet = replicate 20 7

extract-proxy_example : extract_eip1167_address (proxy wallet) ≡ ok wallet
extract-proxy_example = extract-proxy wallet refl

is_eip1167_contract-proxy_example :
    (addr : Bytes) × (proxy wallet ≡ proxy addr) × (length addr ≡ 20)
is_eip1167_contract-proxy_example =
    is_eip1167_contract-proxy (proxy wallet) (unfold is_eip1167_contract in refl)

abbrev code : Bytes
code = 0x60 ∷ 0x00 ∷ 0xf3 ∷ []

parse-encode_example :
    parse_erc5202 (encode 1 1 (9 ∷ 9 ∷ []) code) ≡ ok (1, some (9 ∷ 9 ∷ []), code)
parse-encode_example =
    parse-encode 1 1 (9 ∷ 9 ∷ []) code (omega arith) (omega arith) (omega arith) (omega arith)

generate_roundtrip_example :
    (out : Bytes) × (generate_blueprint_bytecode code none ≡ ok out)
    × (from_bytes (slice out 1 3) ≡ length (drop 10 out))
    × (parse_erc5202 (drop 10 out) ≡ ok (0, none, code))
generate_roundtrip_example = generate_roundtrip code (omega arith) (omega arith)

abbrev salt_of_ones : Bytes
salt_of_ones = replicate 32 1

abbrev first_bytes : Bytes → Bytes
first_bytes b = ljust (take 20 b) 32
