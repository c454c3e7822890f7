-- ===== src/Tests/Layers.antt =====
-- The parser's layers, the rules of the policy and the writer on concrete bytes.
use rust_pcaprune.Prelude.{
  ℕ, ◌+◌, ◌≤◌, ◌<◌, ◌≡◌, refl, [], ◌∷◌, ◌++◌, none, some, length, Bytes, ret, byte, be16, ◌⊎◌, ◌↔◌,
  arith, replicate,
}
use rust_pcaprune.Parse.{l2_ethertype_and_l3_start, vlan_walk}
use rust_pcaprune.Parse.PseudoDst.{read_ip4, ipv4_pseudo_dst, option_step, options_walk}
use rust_pcaprune.Parse.L2.{Tagged, l2_iff_Tagged}
use rust_pcaprune.Parse.Options.{ipv4_pseudo_dst_total, four_at}
use rust_pcaprune.Policy.{Action, contains, port_in_set, starts_with, decide_tcp, decide_udp}
use rust_pcaprune.Policy.Rules.{TcpEncrypted, UdpEncrypted, decide_tcp_iff, decide_udp_iff}
use rust_pcaprune.Tests.Frames.{tls_frame}
use rust_pcaprune.PcapIo.Batch.{
  WriteBatch, write_record, content, write_record_lem, write_batch_cap,
}

-- Two tags in front of IPv4.
abbrev qinq_frame : Bytes
qinq_frame = replicate 12 0 ++ (0x81 ∷ 0 ∷ 0 ∷ 1 ∷ 0x81 ∷ 0 ∷ 0 ∷ 2 ∷ 0x08 ∷ 0 ∷ [])

l2_iff_Tagged_example :
    (l2_ethertype_and_l3_start qinq_frame ≡ ret (some (0x0800, 22)))
    ↔ Tagged qinq_frame 12 0x0800 22
l2_iff_Tagged_example = l2_iff_Tagged qinq_frame 0x0800 22

qinq-Tagged : Tagged qinq_frame 12 0x0800 22
unfolding l2_ethertype_and_l3_start vlan_walk be16 byte
qinq-Tagged = (l2_iff_Tagged qinq_frame 0x0800 22).0 refl

abbrev app_data : Bytes
app_data = 0x17 ∷ replicate 30 1

decide_tcp_iff_example :
    ((decide_tcp 50000 50001 app_data ≡ ret Action.truncate)
      ↔ ((24 < length app_data) × TcpEncrypted 50000 50001 app_data))
    × ((decide_tcp 50000 50001 app_data ≡ ret Action.truncate)
        ⊎ (decide_tcp 50000 50001 app_data ≡ ret Action.keep))
decide_tcp_iff_example = decide_tcp_iff 50000 50001 app_data

app_data_encrypted : TcpEncrypted 50000 50001 app_data
unfolding decide_tcp port_in_set contains byte starts_with
app_data_encrypted = ((decide_tcp_iff 50000 50001 app_data).0.0 refl).1

decide_udp_iff_example :
    ((decide_udp 4500 4500 app_data ≡ ret Action.truncate)
      ↔ ((24 < length app_data) × UdpEncrypted 4500 4500))
    × ((decide_udp 4500 4500 app_data ≡ ret Action.truncate)
        ⊎ (decide_udp 4500 4500 app_data ≡ ret Action.keep))
decide_udp_iff_example = decide_udp_iff 4500 4500 app_data

-- The frame of the repository's test `ipv4_lsrr_pseudo_dst`, cut behind its options.
abbrev lsrr_frame : Bytes
lsrr_frame =
    replicate 14 0
    ++ (0x47 ∷ 0 ∷ 0 ∷ 0x48 ∷ 0 ∷ 0 ∷ 0 ∷ 0 ∷ 0 ∷ 6 ∷ 0 ∷ 0 ∷ [])
    ++ (127 ∷ 0 ∷ 0 ∷ 1 ∷ 127 ∷ 0 ∷ 0 ∷ 1 ∷ [])
    ++ (0x83 ∷ 7 ∷ 4 ∷ 1 ∷ 2 ∷ 3 ∷ 4 ∷ 0 ∷ [])

lsrr_route : ipv4_pseudo_dst lsrr_frame 14 28 ≡ ret (1 ∷ 2 ∷ 3 ∷ 4 ∷ [])
unfolding ipv4_pseudo_dst options_walk option_step byte read_ip4
lsrr_route = refl

ipv4_pseudo_dst_total_example :
    (dst : Bytes) × (ipv4_pseudo_dst lsrr_frame 14 28 ≡ ret dst)
    × ((dst ≡ four_at lsrr_frame 30)
        ⊎ ((j : ℕ) × (37 ≤ j) × (j + 4 ≤ 42) × (dst ≡ four_at lsrr_frame j)))
ipv4_pseudo_dst_total_example = ipv4_pseudo_dst_total lsrr_frame 14 28 (omega arith) (omega arith)

abbrev half_full : WriteBatch
half_full = record { buf = replicate 20 7; written = []; limits = none }

abbrev rec_hdr : Bytes
rec_hdr = replicate 16 1

write_record_lem_example :
    (content (write_record half_full rec_hdr tls_frame)
      ≡ content half_full ++ (rec_hdr ++ tls_frame))
    × ((length (write_record half_full rec_hdr tls_frame).buf ≤ write_batch_cap)
        ⊎ ((write_record half_full rec_hdr tls_frame).buf ≡ rec_hdr ++ tls_frame))
write_record_lem_example = write_record_lem half_full rec_hdr tls_frame (omega arith)
