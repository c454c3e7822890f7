-- ===== src/Testutil/Fixtures.antt =====
-- pcap_fixtures of src/testutil.rs: the captures that the tests of the repository write. A file is
-- the bytes that are written to it.
use rust_pcaprune.Prelude.{
  ℕ, suc, ◌+◌, ◌%◌, ◌^◌, ◌≤◌, ◌<◌, ◌≡◌, refl, sym, ap, ap₂, ◌∙◌, Bool, true, false, List, [], ◌∷◌,
  ◌++◌, Option, none, some, length, get_elem?, take, replicate, min, Bytes, arith, length-take,
  append-nil, ret,
}
use rust_pcaprune.PcapIo.Base.{ok, Limits}
use rust_pcaprune.PcapIo.Header.{Endian, to_bytes}
use rust_pcaprune.PcapIo.Format.{CapturePacket, encode, encode_all, GlobalHeader}
use rust_pcaprune.PcapIo.Refine.{capture, file}
use rust_pcaprune.PcapIo.Count.{count_packets_with_options}
use rust_pcaprune.PcapIo.Packets.{AllFit}
use rust_pcaprune.PcapIo.Counted.{count_packets_counts}
use rust_pcaprune.Testutil.{eth_ipv4_tcp_frame}

-- `GHDR_LE` and `GHDR_BE`
abbrev pub ghdr_le : Bytes
ghdr_le =
    0xd4 ∷ 0xc3 ∷ 0xb2 ∷ 0xa1 ∷ 0x02 ∷ 0x00 ∷ 0x04 ∷ 0x00 ∷ replicate 8 0
    ++ 0xff ∷ 0xff ∷ 0 ∷ 0 ∷ 0x01 ∷ 0 ∷ 0 ∷ 0 ∷ []

abbrev pub ghdr_be : Bytes
ghdr_be =
    0xa1 ∷ 0xb2 ∷ 0xc3 ∷ 0xd4 ∷ 0x00 ∷ 0x02 ∷ 0x00 ∷ 0x04 ∷ replicate 10 0
    ++ 0xff ∷ 0xff ∷ 0x01 ∷ 0 ∷ 0 ∷ 0 ∷ []

abbrev pub order_of : Bool → Endian
order_of le = record { le = le }

-- `incl_lens.and_then(|l| l.get(i).copied())`
unfoldable pub override_at : Option (List ℕ) → ℕ → Option ℕ
override_at none i = none
override_at (some l) i = get_elem? l i

abbrev pub or_length : Option ℕ → Bytes → ℕ
or_length none frame = length frame
or_length (some n) frame = n

unfoldable pub incl_len_at : Option (List ℕ) → ℕ → Bytes → ℕ
incl_len_at incl_lens i frame = min (or_length (override_at incl_lens i) frame) (length frame)

-- A record header and the captured bytes.
unfoldable pub write_frame : Bool → ℕ → Bytes → Bytes
write_frame le incl frame =
    (replicate 8 0
      ++ (to_bytes (order_of le) (incl % 2 ^ 32) ++ to_bytes (order_of le) (length frame % 2 ^ 32)))
    ++ take incl frame

-- `for (i, frame) in frames.into_iter().enumerate()`
unfoldable pub write_frames : Bool → ℕ → List Bytes → Option (List ℕ) → Bytes
write_frames le i [] incl_lens = []
write_frames le i (frame ∷ frames) incl_lens =
    write_frame le (incl_len_at incl_lens i frame) frame ++ write_frames le (i + 1) frames incl_lens

unfoldable pub write_pcap_inner : Bytes → Bool → List Bytes → Option (List ℕ) → Bytes
write_pcap_inner ghdr le frames incl_lens = ghdr ++ write_frames le 0 frames incl_lens

unfoldable pub write_pcap_records : List Bytes → Option (List ℕ) → Bytes
write_pcap_records frames incl_lens = write_pcap_inner ghdr_le true frames incl_lens

unfoldable pub write_pcap_records_be : List Bytes → Option (List ℕ) → Bytes
write_pcap_records_be frames incl_lens = write_pcap_inner ghdr_be false frames incl_lens

abbrev pub minimal_frame : Bytes
minimal_frame = eth_ipv4_tcp_frame 443 12345 (replicate 30 0x17)

unfoldable pub write_minimal_pcap : ℕ → Bytes
write_minimal_pcap n = write_pcap_records (replicate n minimal_frame) none

unfoldable pub write_minimal_pcap_be : ℕ → Bytes
write_minimal_pcap_be n = write_pcap_records_be (replicate n minimal_frame) none

-- The packets of such a capture.
abbrev pub fixture_packet : ℕ → Bytes → CapturePacket
fixture_packet incl frame = record {
  ts_sec = 0;
  ts_usec = 0;
  orig_len = length frame;
  frame = take incl frame;
}

abbrev pub fixture_packets : ℕ → List Bytes → Option (List ℕ) → List CapturePacket
fixture_packets i [] incl_lens = []
fixture_packets i (frame ∷ frames) incl_lens =
    fixture_packet (incl_len_at incl_lens i frame) frame ∷ fixture_packets (i + 1) frames incl_lens

-- Each frame is shorter than 4 GiB.
abbrev pub AllShort : List Bytes → Type 0
AllShort [] = Unit
AllShort (frame ∷ frames) = (length frame < 2 ^ 32) × AllShort frames

length-fixture :
    (i : ℕ) (frame : Bytes) (incl_lens : Option (List ℕ))
    → length (take (incl_len_at incl_lens i frame) frame) ≡ incl_len_at incl_lens i frame
unfolding incl_len_at
length-fixture i frame incl_lens =
    let n = or_length (override_at incl_lens i) frame in
    omega (arith, length-take (min n (length frame)) frame)

incl_le :
    (i : ℕ) (frame : Bytes) (incl_lens : Option (List ℕ))
    → incl_len_at incl_lens i frame ≤ length frame
unfolding incl_len_at
incl_le i frame incl_lens = omega arith

zero_bytes : (le : Bool) → to_bytes (order_of le) 0 ≡ replicate 4 0
unfolding to_bytes
zero_bytes true = refl
zero_bytes false = refl

write_frame-encode :
    (le : Bool) (i : ℕ) (frame : Bytes) (incl_lens : Option (List ℕ))
    → length frame < 2 ^ 32
    → write_frame le (incl_len_at incl_lens i frame) frame
      ≡ encode (order_of le) (fixture_packet (incl_len_at incl_lens i frame) frame)
unfolding write_frame
write_frame-encode le i frame incl_lens h =
    let incl = incl_len_at incl_lens i frame in
    let small : incl % 2 ^ 32 ≡ length (take incl frame) =
      omega (arith, length-fixture i frame incl_lens, incl_le i frame incl_lens) in
    let whole : length frame % 2 ^ 32 ≡ length frame = omega arith in
    ap₂
      (λ (a b : ℕ).
        (replicate 8 0 ++ (to_bytes (order_of le) a ++ to_bytes (order_of le) b))
        ++ take incl frame)
      small whole
    ∙ ap
        (λ (z : Bytes).
          (z
            ++ (z
                ++ (to_bytes (order_of le) (length (take incl frame))
                    ++ to_bytes (order_of le) (length frame))))
          ++ take incl frame)
        (sym (zero_bytes le))

write_frames-encode_all :
    (le : Bool) (i : ℕ) (frames : List Bytes) (incl_lens : Option (List ℕ))
    → AllShort frames
    → write_frames le i frames incl_lens
      ≡ encode_all (order_of le) (fixture_packets i frames incl_lens)
unfolding write_frames
write_frames-encode_all le i [] incl_lens h = refl
write_frames-encode_all le i (frame ∷ frames) incl_lens (s, h) =
    ap₂ (◌++◌) (write_frame-encode le i frame incl_lens s)
      (write_frames-encode_all le (i + 1) frames incl_lens h)

AllFit-fixture :
    (i : ℕ) (frames : List Bytes) (incl_lens : Option (List ℕ))
    → AllShort frames
    → AllFit (fixture_packets i frames incl_lens)
AllFit-fixture i [] incl_lens h = tt
AllFit-fixture i (frame ∷ frames) incl_lens (s, h) = (
  record {
    sec = omega arith;
    usec = omega arith;
    orig = s;
    incl = omega (arith, length-fixture i frame incl_lens, incl_le i frame incl_lens);
  },
  AllFit-fixture (i + 1) frames incl_lens h,
)

length-fixture_packets :
    (i : ℕ) (frames : List Bytes) (incl_lens : Option (List ℕ))
    → length (fixture_packets i frames incl_lens) ≡ length frames
length-fixture_packets i [] incl_lens = refl
length-fixture_packets i (frame ∷ frames) incl_lens =
    ap suc (length-fixture_packets (i + 1) frames incl_lens)

-- What the writers write, the reader of src/pcap_io.rs counts: as many packets as there were
-- frames, in either byte order, whatever lengths are put in place of the frames' own.
pub count_packets-fixture :
    (le : Bool) (ghdr : Bytes) (frames : List Bytes) (incl_lens : Option (List ℕ)) (limits : Limits)
    → GlobalHeader (order_of le) ghdr
    → AllShort frames
    → (l : Limits) × (count_packets_with_options
          (file (write_pcap_inner ghdr le frames incl_lens))
          limits
        ≡ ret (ok (length frames, l)))
unfolding write_pcap_inner
count_packets-fixture le ghdr frames incl_lens limits g h =
    let packets = fixture_packets 0 frames incl_lens in
    let same : ghdr ++ write_frames le 0 frames incl_lens ≡ capture (order_of le) ghdr packets [] =
      ap (λ b. ghdr ++ b)
        (write_frames-encode_all le 0 frames incl_lens h
          ∙ sym (append-nil (encode_all (order_of le) packets))) in
    let (l, e) =
      count_packets_counts (order_of le) ghdr [] packets limits g (omega arith)
        (AllFit-fixture 0 frames incl_lens h) in
    (
      l,
      ap (λ b. count_packets_with_options (file b) limits) same
          ∙ e
          ∙ ap (λ n. ret (ok (n, l))) (length-fixture_packets 0 frames incl_lens),
    )
