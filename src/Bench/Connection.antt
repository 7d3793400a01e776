-- ===== src/Bench/Connection.antt =====
-- bench/src/tcp_client.c: connecting, sending, receiving and closing one connection. A loop runs on fuel and
-- gives `none` when the fuel is used up. Printed messages are left out.
use tlshub_ebpf.Base.{
  ℕ, zero, suc, ◌+◌, ◌%◌, ◌^◌, ℤ, pos, minus_one, is_negative, true, false, ◌&&◌, Option, none,
  some, [], ◌∷◌, Bytes, ◌==◌, ltb, leb, if◌then◌else◌, length, replicate, drop, min, overwrite,
}
use tlshub_ebpf.Metrics.Types.{Doubles, Clock, Timespec}
use tlshub_ebpf.Bench.Types.{
  connecting, connected, sending, receiving, closing, closed, failed, timeout, ConnStats,
}
use tlshub_ebpf.Bench.Metrics.{timespec_diff_ms}
use tlshub_ebpf.Bench.Sockets.{
  sent, got, ready, timed_out, interrupted, broken, tcp_nodelay, so_rcvtimeo, shut_wr, TcpSockets,
}

abbrev pub buffer_size : ℕ
buffer_size = 65536

-- 0, 1, … as long as the counter runs.
unfoldable pub count_from : ℕ → ℕ → Bytes
count_from i zero = []
count_from i (suc n) = i ∷ count_from (i + 1) n

-- The bytes that are sent: 0xAA each, but for the first 256, which count up.
unfoldable pub test_data : ℕ → Bytes
unfolding count_from
test_data data_size = overwrite (count_from 0 (min data_size 256)) (replicate data_size 0xaa)

module _ {F : Type 0} (fp : Doubles F) where
  -- The times and the throughput of `tcp_client_close`.
  unfoldable pub close_stats : Timespec → ConnStats F → ConnStats F
  unfolding timespec_diff_ms
  close_stats now s =
      let transfer = fp.sub (timespec_diff_ms fp s.start_time now) s.connection_latency_ms in
      let bytes = (s.bytes_sent + s.bytes_received) % 2 ^ 64 in
      let bytes_per_sec = fp.div (fp.of_ℕ bytes) (fp.div transfer (fp.of_ℕ 1000)) in
      record s {
        close_time = now;
        state = closed;
        data_transfer_time_ms = transfer;
        throughput_mbps =
            if fp.lt (fp.of_ℕ 0) transfer && ltb 0 s.bytes_sent
            then fp.div (fp.mul bytes_per_sec (fp.of_ℕ 8)) (fp.mul (fp.of_ℕ 1024) (fp.of_ℕ 1024))
            else s.throughput_mbps;
      }

  module _ {W : Type 0} (sys : Clock W) (net : TcpSockets W) where
    -- From `connect` on, with the address.
    unfoldable pub connect_to : ℕ → ℕ → ℤ → ConnStats F → W → ℤ × ConnStats F × W
    unfolding timespec_diff_ms
    connect_to address port fd s w =
        let (r, w1) = net.connect fd address port w in
        let (now, w2) = sys.gettime w1 in
        if is_negative r then (minus_one, record s { state = failed }, net.close fd w1) else (
          fd,
          record s {
            connect_time = now;
            connection_latency_ms = timespec_diff_ms fp s.start_time now;
            state = connected;
          },
          w2,
        )

    -- With a socket.
    unfoldable pub prepare : Bytes → ℕ → ℤ → ConnStats F → W → ℤ × ConnStats F × W
    unfolding connect_to
    prepare ip port fd s w =
        let (r, w1) = net.setsockopt fd tcp_nodelay w in
        elim (net.inet_pton ip) [
          | none ↦ (minus_one, record s { state = failed }, net.close fd w1)
          | some address ↦ connect_to address port fd s w1
        ]

    -- `tcp_client_connect(target_ip, target_port, stats)`
    unfoldable pub tcp_client_connect : Bytes → ℕ → ConnStats F → W → ℤ × ConnStats F × W
    unfolding prepare
    tcp_client_connect ip port s w =
        let (now, w1) = sys.gettime w in
        let s1 = record s { start_time = now; state = connecting } in
        let (fd, w2) = net.socket w1 in
        if is_negative fd
        then (minus_one, record s1 { state = failed }, w2)
        else prepare ip port fd s1 w2

    -- The loop of `tcp_client_send_data`: the number of bytes sent, or `none` inside if `send` failed.
    unfoldable pub send_all : ℕ → ℤ → ℕ → Bytes → W → Option (Option ℕ × W)
    send_all zero fd total buffer w = none
    send_all (suc fuel) fd total buffer w =
        let (r, w1) = net.send fd (drop total buffer) w in
        elim (ltb total (length buffer)) [
          | false ↦ some (some total, w)
          | true ↦ elim r [
            | sent n ↦ send_all fuel fd (total + n) buffer w1
            | interrupted ↦ send_all fuel fd total buffer w1
            | broken ↦ some (none, w1)
          ]
        ]

    -- What follows the loop.
    unfoldable pub end_send : ConnStats F → Option ℕ × W → ℤ × ConnStats F × W
    end_send s (none, w) = (minus_one, record s { state = failed }, net.free w)
    end_send s (some total, w) =
        let (now, w1) = sys.gettime w in
        (
          pos 0,
          record s {
            bytes_sent = total;
            first_byte_time = if s.first_byte_time.tv_sec == 0 then now else s.first_byte_time;
          },
          net.free w1,
        )

    -- `tcp_client_send_data(sockfd, data_size, stats)`
    unfoldable pub tcp_client_send_data : ℕ → ℤ → ℕ → ConnStats F → W → Option (ℤ × ConnStats F × W)
    unfolding end_send
    tcp_client_send_data fuel fd data_size s w =
        let s1 = record s { state = sending } in
        let (now, w1) = sys.gettime w in
        let (granted, w2) = net.malloc data_size w1 in
        let outcome = send_all fuel fd 0 (test_data data_size) w2 in
        if granted
        then (elim outcome [ none ↦ none | some o ↦ some (end_send s1 o) ])
        else some (minus_one, record s1 { state = failed }, w2)

    -- The loop of `tcp_client_receive_data`.
    unfoldable pub receive_loop : ℕ → ℤ → ConnStats F → W → Option (ℤ × ConnStats F × W)
    receive_loop zero fd s w = none
    receive_loop (suc fuel) fd s w =
        let (p, w1) = net.poll fd 5000 w in
        let (r, w2) = net.recv fd buffer_size w1 in
        elim p [
          | interrupted ↦ receive_loop fuel fd s w1
          | broken ↦ some (minus_one, record s { state = failed }, w1)
          | timed_out ↦ some (
              if ltb s.bytes_received s.bytes_sent
              then (minus_one, record s { state = timeout }, w1)
              else (pos 0, s, w1))
          | ready ↦ elim r [
            | interrupted ↦ receive_loop fuel fd s w2
            | broken ↦ some (minus_one, record s { state = failed }, w2)
            | got bytes ↦ elim bytes [
              | [] ↦ some (pos 0, s, w2)
              | c ∷ cs ↦
                  let s1 = record s {
                    bytes_received = (s.bytes_received + length (c ∷ cs)) % 2 ^ 64;
                  } in
                  elim (leb s.bytes_sent s1.bytes_received) [
                    | true ↦ some (pos 0, s1, w2)
                    | false ↦ receive_loop fuel fd s1 w2
                  ]
            ]
          ]
        ]

    -- `tcp_client_receive_data(sockfd, stats)`
    unfoldable pub tcp_client_receive_data : ℕ → ℤ → ConnStats F → W → Option (ℤ × ConnStats F × W)
    unfolding receive_loop
    tcp_client_receive_data fuel fd s w = receive_loop fuel fd (record s { state = receiving }) w

    -- `while (recv(…) > 0) {}`
    unfoldable pub drain : ℕ → ℤ → W → Option W
    drain zero fd w = none
    drain (suc fuel) fd w =
        let (r, w1) = net.recv fd 1024 w in
        elim r [
          | interrupted ↦ some w1
          | broken ↦ some w1
          | got bytes ↦ elim bytes [ [] ↦ some w1 | c ∷ cs ↦ drain fuel fd w1 ]
        ]

    unfoldable pub end_close : ℤ → ConnStats F → W → ℤ × ConnStats F × W
    unfolding close_stats
    end_close fd s w =
        let (now, w1) = sys.gettime (net.close fd w) in (pos 0, close_stats now s, w1)

    -- `tcp_client_close(sockfd, stats)`
    unfoldable pub tcp_client_close : ℕ → ℤ → ConnStats F → W → Option (ℤ × ConnStats F × W)
    unfolding end_close
    tcp_client_close fuel fd s w =
        let s1 = record s { state = closing } in
        let (start, w1) = sys.gettime w in
        let (r, w2) = net.setsockopt fd (so_rcvtimeo 5) w1 in
        elim (drain fuel fd (net.shutdown fd shut_wr w2)) [
          | none ↦ none
          | some w3 ↦ some (end_close fd s1 w3)
        ]
