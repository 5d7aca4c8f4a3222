-- ===== src/Htc/Frame.antt =====
-- common_src/htc/htc.c: the frames, their headers and their trailers.
use atheros_wifi.Prelude.{
  ℕ, zero, suc, ◌+◌, ◌-◌, ◌*◌, ◌/◌, ◌%◌, ◌^◌, bit_and, ◌&&◌, Option, none, some, List, [], ◌∷◌, ltb,
  leb, ◌==◌, if◌then◌else◌, length, get_or, take, drop, Outcome, ran, halted, ◌>>=◌, ◌>>◌, assert,
  Mem, load, store,
}
use atheros_wifi.Util.{get_endpoint}
use atheros_wifi.Netbuf.Buffer.{Netbuf, to_len, pull, trim, put}
use atheros_wifi.Htc.{Driver, with_ep, process_credit_rpt}

-- sizeof(HTC_FRAME_HDR): the endpoint, the flags, the payload's length and two control bytes.
abbrev pub htc_hdr_length : ℕ
htc_hdr_length = 6

-- sizeof(HTC_LOOKAHEAD_REPORT)
abbrev pub lookahead_report_length : ℕ
lookahead_report_length = 6

pub data Status : Type 0 where
  ok error : Status

-- A QOSAL_UINT16 and a QOSAL_UINT32 of the bytes at an address, the lowest first.
abbrev pub get16 : Mem → ℕ → ℕ
get16 m a = m a + 2 ^ 8 * m (a + 1)

abbrev pub word : ℕ → ℕ → ℕ → ℕ → ℕ
word b0 b1 b2 b3 = b0 + 2 ^ 8 * b1 + 2 ^ 16 * b2 + 2 ^ 24 * b3

abbrev pub get32 : Mem → ℕ → ℕ
get32 m a = word (m a) (m (a + 1)) (m (a + 2)) (m (a + 3))

-- `*pNextLookAheads` and `*pNumLookAheads`
pub record Looks : Type 0 where
  pub next_look_ahead : ℕ
  pub num_look_aheads : ℕ

abbrev pub one_look : Option Looks → ℕ → Option Looks
one_look (some _) look_ahead = some (record { next_look_ahead = look_ahead; num_look_aheads = 1 })
one_look none look_ahead = none

-- One record of a trailer. `none` for the look-aheads is a NULL pointer.
unfoldable pub process_record : ℕ → List ℕ → Driver × Option Looks → Outcome (Driver × Option Looks)
process_record record_id body (d, looks) =
    if record_id == 1
    then (do d' ← process_credit_rpt (length body / 2) body d; ran (d', looks))
    else (if record_id == 2
        then (do
          assert (leb lookahead_report_length (length body))
          ran (
            d,
            if get_or body 0 0 == 255 - get_or body 5 0
                then one_look looks
                    (word (get_or body 1 0) (get_or body 2 0) (get_or body 3 0) (get_or body 4 0))
                else looks,
          ))
        else (if record_id == 3 then halted else ran (d, looks)))

-- `Htc_ProcessTrailer`, whose A_EPROTO ends in an assertion. A round takes two bytes at least: the
-- fuel is enough when it is the length of the buffer.
unfoldable pub process_trailer :
    ℕ → List ℕ → Driver × Option Looks → Outcome (Driver × Option Looks)
process_trailer fuel [] s = ran s
process_trailer fuel (b ∷ []) s = halted
process_trailer zero (record_id ∷ size ∷ rest) s = halted
process_trailer (suc fuel) (record_id ∷ size ∷ rest) s =
    if ltb (length rest) size then halted else (do
      s' ← process_record record_id (take size rest) s
      process_trailer fuel (drop size rest) s')

abbrev pub need_credit_update : ℕ
need_credit_update = 1

abbrev pub hdr : ℕ → ℕ → ℕ → ℕ → ℕ → List ℕ
hdr id flags payload_len control0 control1 =
    id ∷ flags ∷ payload_len % 2 ^ 8 ∷ payload_len / 2 ^ 8 % 2 ^ 8 ∷ control0 ∷ control1 ∷ []

-- What `Htc_SendPacket` writes over the first bytes of the buffer.
abbrev pub put_hdr : Mem → Netbuf → ℕ → ℕ → Mem
put_hdr m b flags seq_no = store m b.start (
    hdr (b.trans.epid % 2 ^ 8) flags ((to_len b % 2 ^ 16 + 2 ^ 16 - htc_hdr_length) % 2 ^ 16) 0
      seq_no)

-- `Htc_SendPacket`: before `HTC_Start` no credit is taken. The function's one error is a lack of
-- credits.
unfoldable pub send_packet : Driver → Mem → Netbuf → Outcome (Status × Driver × Mem)
send_packet d m b =
    let i = get_endpoint b.trans.epid in
    let e = d.ep i in
    if d.htc_start
    then (if e.credits == 0 then ran (error, d, m) else (do
      assert (ltb 0 b.trans.credits)
      let left = (e.credits + 2 ^ 8 - b.trans.credits % 2 ^ 8) % 2 ^ 8
      ran (
        ok,
        with_ep d i (record e { credits = left; seq_no = (e.seq_no + 1) % 2 ^ 8 }),
        put_hdr m b (if left == 0 then need_credit_update else 0) e.seq_no,
      )))
    else ran (ok, d, put_hdr m b 0 0)

unfoldable pub process_tx_complete : Netbuf → Outcome Netbuf
process_tx_complete b = pull b htc_hdr_length

-- `Htc_RxComplete` frees the buffer; a payload on the control endpoint is not expected.
unfoldable pub rx_complete : Netbuf → Outcome (Unit {0})
rx_complete b = assert (leb (to_len b) 0)

-- `Htc_PrepareRecvPacket`: the request's transfer length is that of the frame that the look-ahead
-- announces, rounded up to whole blocks.
unfoldable pub prepare_recv_packet : Driver → Netbuf → Outcome Netbuf
prepare_recv_packet d b =
    let valid_length = (d.look_ahead / 2 ^ 16 % 2 ^ 16 + htc_hdr_length) % 2 ^ 16 in
    let trans_length = bit_and (valid_length + d.block_mask) (2 ^ 32 - 1 - d.block_mask) % 2 ^ 16 in
    do
      b' ←
          put (record b { trans = record b.trans { credits = 0; epid = d.look_ahead % 2 ^ 8 } })
            trans_length
      ran (record b' {
        trans = record b'.trans { transfer_length = trans_length; lookahead = d.look_ahead };
      })

-- The end of `Htc_ProcessRecvHeader`, from the flags on.
abbrev pub strip_trailer :
    ℕ → ℕ → ℕ → Driver → Mem → Netbuf → Option Looks → Outcome (Driver × Option Looks × Netbuf)
strip_trailer p flags payload_len d m b looks =
    if flags / 2 % 2 == 1
    then (do
      let size = m (p + 4)
      assert (leb 2 size && leb size payload_len)
      (d', looks') ←
          process_trailer size (load m (p + htc_hdr_length + payload_len - size) size) (d, looks)
      b' ← trim b size
      b'' ← pull b' htc_hdr_length
      ran (d', looks', b''))
    else (do b' ← pull b htc_hdr_length; ran (d, looks, b'))

abbrev pub trim_padding : Netbuf → ℕ → Outcome Netbuf
trim_padding b payload_len =
    if ltb (payload_len + htc_hdr_length) (to_len b)
    then trim b (to_len b - (payload_len + htc_hdr_length))
    else ran b

abbrev pub no_looks : Option Looks → Option Looks
no_looks (some l) = some (record l { num_look_aheads = 0 })
no_looks none = none

-- `Htc_ProcessRecvHeader`. Each of its errors is an assertion.
unfoldable pub process_recv_header :
    Driver → Mem → Netbuf → Option Looks → Outcome (Driver × Option Looks × Netbuf)
process_recv_header d m b looks = do
  let none_yet = no_looks looks
  assert (ltb 0 b.start && leb htc_hdr_length (to_len b % 2 ^ 16))
  let payload_len = get16 m (b.start + 2)
  assert (get32 m b.start == b.trans.lookahead)
  b' ← trim_padding b payload_len
  strip_trailer b.start (m (b.start + 1)) payload_len d m b' none_yet
