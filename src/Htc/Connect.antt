-- ===== src/Htc/Connect.antt =====
-- common_src/htc/htc.c: the services, and the start of the protocol. The four entries of
-- `ath_custom_htc` are the hooks that a customisation may set: `none` for NULL.
use atheros_wifi.Prelude.{
  ℕ, ◌%◌, ◌^◌, Bool, true, false, Option, none, some, ltb, ◌==◌, if◌then◌else◌, Outcome, ran, ◌>>◌,
  assert,
}
use atheros_wifi.Util.{get_endpoint}
use atheros_wifi.Htc.{Driver, with_ep, endpoint_max, distribute_credits}
use atheros_wifi.Htc.Frame.{Status, ok, error}

abbrev pub htc_ctrl_rsvd_svc : ℕ
htc_ctrl_rsvd_svc = 1

abbrev pub wmi_control_svc : ℕ
wmi_control_svc = 0x100

abbrev pub wmi_data_be_svc : ℕ
wmi_data_be_svc = 0x101

abbrev pub wmi_data_bk_svc : ℕ
wmi_data_bk_svc = 0x102

abbrev pub wmi_data_vi_svc : ℕ
wmi_data_vi_svc = 0x103

abbrev pub wmi_data_vo_svc : ℕ
wmi_data_vo_svc = 0x104

-- `HTC_SERVICE_CONNECT_RESP`: the fields that the driver reads.
pub record Resp : Type 0 where
  pub endpoint : ℕ
  pub max_msg_length : ℕ

-- `ath_custom_htc.HTCConnectServiceExch` gives a status, the endpoint and the size.
abbrev pub Exchange : Type 0
Exchange = ℕ → Option (ℕ × ℕ)

-- The endpoint and message size of a service; without one the size stays 0.
unfoldable pub service : ℕ → ℕ × ℕ
service id =
    if id == wmi_control_svc
    then (1, 1542)
    else (if id == wmi_data_be_svc
        then (2, 4144)
        else (if id == wmi_data_bk_svc
            then (3, 4144)
            else (if id == wmi_data_vi_svc
                then (4, 4144)
                else (if id == wmi_data_vo_svc then (5, 4144) else (endpoint_max, 0)))))

-- The rest of `HTC_ConnectService`, once the endpoint and the size are known.
unfoldable pub mark_endpoint : Driver → ℕ → ℕ × ℕ → Outcome (Status × Driver × Option Resp)
mark_endpoint d service_id (assigned, size) = do
  assert (ltb 0 size)
  let i = get_endpoint assigned
  ran (
    ok,
    with_ep d i (record (d.ep i) { service_id = service_id; max_msg_length = size % 2 ^ 16 }),
    some (record { endpoint = assigned; max_msg_length = size }),
  )

-- `HTC_ConnectService`
unfoldable pub connect_service :
    Option Exchange → Driver → ℕ → Outcome (Status × Driver × Option Resp)
connect_service exchange d service_id =
    if service_id == htc_ctrl_rsvd_svc
    then mark_endpoint d service_id (0, 256)
    else (elim exchange [
      | none ↦ mark_endpoint d service_id (service service_id)
      | some f ↦ (elim (f service_id) [
        | some found ↦ mark_endpoint d service_id found
        | none ↦ ran (error, d, none)
      ])
    ])

-- `HTC_WaitTarget`: `HTCGetReady` gives the credits' number and size, or an error.
unfoldable pub wait_target :
    Option (Option (ℕ × ℕ)) → Option Exchange → Driver → Outcome (Status × Driver × Option Resp)
wait_target (some none) exchange d = ran (error, d, none)
wait_target (some (some (count, size))) exchange d =
    connect_service exchange (record d { credit_count = count; credit_size = size })
      htc_ctrl_rsvd_svc
wait_target none exchange d =
    connect_service exchange (record d { credit_count = 6; credit_size = 1664 }) htc_ctrl_rsvd_svc

-- `HTC_Start`: `HTCSendSetupComplete` succeeds or not; the flag says that the packet interrupt is
-- unmasked.
unfoldable pub start : Option Bool → Driver → Bool × Status × Driver
start (some false) d = (false, error, distribute_credits d)
start (some true) d = (true, ok, record (distribute_credits d) { htc_start = true })
start none d = (true, ok, record (distribute_credits d) { htc_start = true })
