-- ===== src/Runs/Worlds.antt =====
-- A cipher in counter mode, and a client in a small world.
use alba.Base.{
  ℕ, ◌+◌, ◌*◌, ◌/◌, ◌%◌, ◌^◌, ◌<◌, ◌≡◌, refl, ◌∙◌, map, List, [], ◌∷◌, ◌++◌, true, false, none,
  some, length, length-reverse, length-le_bytes, take, drop, take-length-append, drop-length-append,
  reverse, reverse-reverse, replicate, le_bytes, le_value, le_value-le_bytes, arith,
}
use alba.Llio.Builder.{message_builder}
use alba.Encryption.Decrypt.{Cipher}
use alba.Encryption.Blocks.{words_bytes, counter_bytes}
use alba.Encryption.Streams.{stream, mixed, IsCounterMode}
use alba.Rora.Client.{World, RoraClient}
use alba.Osd.{other_kind}
use alba.Asd.Direct.{OsdMap}
use alba.Runs.Manifests.{uncompress}
use alba.Runs.Caches.{manifests}
use alba.Runs.Levels.{filled}
use alba.Runs.Wires.{wire}

abbrev pub block : List ℕ → ℕ → ℕ → ℕ
block key c i = (length key + c + i) % 256

abbrev pub mix : ℕ → ℕ → ℕ
mix x y = (x + y) % 256

-- The key, the counter, and how many bytes were decrypted.
pub record Handle : Type 0 where
  pub key : List ℕ
  pub counter : ℕ
  pub position : ℕ

abbrev pub counter_of : List ℕ → ℕ
counter_of bytes = le_value (reverse (take 8 bytes)) * 2 ^ 64 + le_value (reverse (drop 8 bytes))

abbrev pub cipher : Cipher
cipher = record {
  Handle = Handle;
  open_ = some (record { key = []; counter = 0; position = 0 });
  setkey = λ key hd. some (record hd { key = key });
  setctr = λ bytes hd. some (record hd { counter = counter_of bytes; position = 0 });
  decrypt = λ xs hd. some (
    mixed mix (stream (block hd.key) hd.counter) hd.position xs,
    record hd { position = hd.position + length xs },
  );
}

-- The first n bytes, and the others, of two strings of which the first has n.
take_first : (n : ℕ) (xs ys : List ℕ) → length xs ≡ n → take n (xs ++ ys) ≡ xs
take_first n xs ys e = rw (← e) (take-length-append xs ys)

drop_first : (n : ℕ) (xs ys : List ℕ) → length xs ≡ n → drop n (xs ++ ys) ≡ ys
drop_first n xs ys e = rw (← e) (drop-length-append xs ys)

counter_of-words :
    (high low : ℕ)
    → high < 2 ^ 64
    → low < 2 ^ 64
    → counter_of (words_bytes (high, low)) ≡ high * 2 ^ 64 + low
unfolding words_bytes
counter_of-words high low h l =
    let eight : length (reverse (le_bytes 8 high)) ≡ 8 =
      length-reverse (le_bytes 8 high) ∙ length-le_bytes 8 high in
    rw
      (
        take_first 8 (reverse (le_bytes 8 high)) (reverse (le_bytes 8 low)) eight,
        drop_first 8 (reverse (le_bytes 8 high)) (reverse (le_bytes 8 low)) eight,
        reverse-reverse (le_bytes 8 high),
        reverse-reverse (le_bytes 8 low),
        le_value-le_bytes 8 high (omega (arith, h)),
        le_value-le_bytes 8 low (omega (arith, l)),
      )
      refl

counter_of-counter_bytes : (c : ℕ) → c < 2 ^ 128 → counter_of (counter_bytes c) ≡ c
unfolding counter_bytes
counter_of-counter_bytes c h =
    counter_of-words (c / 2 ^ 64) (c % 2 ^ 64) (omega (arith, h)) (omega arith) ∙ omega arith

abbrev pub key : List ℕ
key = 7 ∷ 9 ∷ []

pub cipher-IsCounterMode : IsCounterMode cipher block mix key
cipher-IsCounterMode = record {
  IsKeyed = λ hd. hd.key ≡ key;
  IsAt = λ c i hd. (hd.key ≡ key) × ((hd.counter ≡ c) × (hd.position ≡ i));
  opened = record { key = []; counter = 0; position = 0 };
  open_law = refl;
  keyed = record { key = key; counter = 0; position = 0 };
  setkey_law = refl;
  keyed_law = refl;
  setctr_law = λ c hd h k. (_, (refl, (k, (counter_of-counter_bytes c h, refl))));
  decrypt_law = λ c i xs hd at. (
    record hd { position = hd.position + length xs },
    (rw (at.0, at.1.0, at.1.1) refl, (at.0, (at.1.0, rw at.1.1 refl))),
  );
}

abbrev pub world : World
world = record {
  transport = wire;
  bimap = manifests;
  uncompress = uncompress;
  Connection = ℕ;
  connect = λ long_id. some 1;
  partial_get = λ conn slice. true;
  sha256 = λ key. some key;
  cipher = cipher;
  memory = λ target len. replicate len 0;
}

abbrev pub known : OsdMap
known =
    map (λ i. (i, record other_kind { kind_asd = true; long_id = i ∷ [] }))
      (1 ∷ 2 ∷ 3 ∷ 4 ∷ 5 ∷ 6 ∷ [])

-- One alba, a manifest of it in the cache, a key, and the osds of the manifest; the last failure was at 5
-- seconds.
abbrev pub rora : ℕ → List ℕ → List (List ℕ) → RoraClient world
rora failures coming levels = record {
  delegate = record {
    transport = record { sent = []; coming = coming; open_ = true; timeout = none };
    timeout = 7;
    mb = message_builder;
    counter = record { fast_path = 0; slow_path = 0 };
  };
  use_null_io = false;
  has_local_fragment_cache = false;
  fast_path_failures = failures;
  failure_time = 5 * 10 ^ 9;
  ser_version = some 2;
  enc_keys = (key, key) ∷ [];
  fkb = message_builder;
  manifests = filled;
  access = record {
    alba_levels = levels;
    osd_maps = (97 ∷ [], known) ∷ [];
    pools = [];
    filling = false;
    connection_pool_size = 5;
  };
}
