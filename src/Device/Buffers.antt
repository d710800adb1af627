-- ===== src/Device/Buffers.antt =====
-- The endpoint buffers of src/lib/usbip_device.c, which the device's threads fill and the server
-- thread empties. Each function is one critical section of `ep_access_mutex`,
-- but `fetch_control_reply`, which is two.
pub mod Capacity
pub mod Delivery
pub mod Events
use usbip_server.Prelude.{
  ℕ, ◌+◌, ◌%◌, Bool, true, false, not, ◌&&◌, ◌||◌, List, [], ◌==◌, if◌then◌else◌, is_empty, take,
  drop, low_bits, u32_mod,
}
use usbip_server.Device.Api.{Action, done, transmit}

-- ENDPOINT_MAX_DATA_LENGTH
abbrev pub endpoint_max_data_length : ℕ
endpoint_max_data_length = 512

-- The file's static variables. `endpoint_data ep` is the first `data_length` bytes of that endpoint's
-- buffer. `event_pending` says whether the counter behind `ep_data_event_fd` is above zero, and
-- `broadcasts` counts the calls of `pthread_cond_broadcast(&ep_data_consumed)`.
pub record DeviceState : Type 0 where
  pub endpoint_data : ℕ → List ℕ
  pub device_stopped : Bool
  pub configuration_value : ℕ
  pub control_answered : Bool
  pub reset_generation : ℕ
  pub event_pending : Bool
  pub broadcasts : ℕ

-- `endpoint_data[ep] = bytes`
abbrev pub update : (ℕ → List ℕ) → ℕ → List ℕ → ℕ → List ℕ
update f ep bytes j = if j == ep then bytes else f j

-- `usbip_device_clear_event`
unfoldable pub clear_event : DeviceState → DeviceState
clear_event s = record s { event_pending = false }

-- The part of `usbip_device_reset` under the mutex, and the cleared event.
unfoldable pub reset_buffers : DeviceState → DeviceState
unfolding clear_event
reset_buffers s = clear_event (record s {
  endpoint_data = λ ep. [];
  configuration_value = 0;
  control_answered = false;
  reset_generation = (s.reset_generation + 1) % u32_mod;
  broadcasts = s.broadcasts + 1;
})

-- `usbip_device_stop`
unfoldable pub stop : DeviceState → DeviceState
stop s = record s { device_stopped = true; endpoint_data = λ ep. []; broadcasts = s.broadcasts + 1 }

-- The condition of the loop in `usbip_device_transmit`: the call waits. `may_wait` is false on the
-- server thread and in a critical section.
unfoldable pub must_wait : Bool → ℕ → DeviceState → Bool
must_wait may_wait ep s =
    not (low_bits ep 4 == 0)
    && may_wait
    && not s.device_stopped
    && not (is_empty (s.endpoint_data (low_bits ep 4)))

-- The rest of `usbip_device_transmit`, from the end of that loop: `generation` is the value of
-- `reset_generation` when the call began. The result is `stored`.
unfoldable pub transmit_store : ℕ → List ℕ → ℕ → DeviceState → Bool × DeviceState
transmit_store ep bytes generation s =
    if not s.device_stopped
      && s.reset_generation == generation
      && (low_bits ep 4 == 0 || is_empty (s.endpoint_data (low_bits ep 4)))
    then (
      true,
      record s {
        endpoint_data =
            update s.endpoint_data (low_bits ep 4) (take endpoint_max_data_length bytes);
        control_answered = if low_bits ep 4 == 0 then true else s.control_answered;
        event_pending = if low_bits ep 4 == 0 then s.event_pending else true;
      },
    )
    else (false, s)

-- `usbip_device_transmit` where it does not wait, on the server thread: no reset comes in between.
unfoldable pub transmit_now : ℕ → List ℕ → DeviceState → Bool × DeviceState
unfolding transmit_store
transmit_now ep bytes s = transmit_store ep bytes s.reset_generation s

-- `usbip_device_fetch_ep_data`: the bytes copied to the caller's buffer.
unfoldable pub fetch_ep_data : ℕ → ℕ → DeviceState → List ℕ × DeviceState
fetch_ep_data ep max_length s =
    let available = s.endpoint_data (low_bits ep 4) in
    let remaining = if low_bits ep 4 == 0 then [] else drop max_length available in
    (
      take max_length available,
      record s {
        endpoint_data = update s.endpoint_data (low_bits ep 4) remaining;
        broadcasts = if is_empty remaining then s.broadcasts + 1 else s.broadcasts;
      },
    )

-- `usbip_device_fetch_control_reply`: whether the request was answered, and the reply.
unfoldable pub fetch_control_reply : ℕ → DeviceState → Bool × List ℕ × DeviceState
unfolding fetch_ep_data
fetch_control_reply max_length s =
    let (reply, s') = fetch_ep_data 0 max_length (record s { control_answered = false }) in
    (s.control_answered, reply, s')

-- The start of `usbip_device_control`: only an answer given to this request may reply to it.
unfoldable pub begin_request : DeviceState → DeviceState
begin_request s = record s { endpoint_data = update s.endpoint_data 0 []; control_answered = false }

-- A callback on the server thread, under `receive_lock`.
unfoldable pub run : {R : Type 0} → Action R → DeviceState → R × DeviceState
run (done r) s = (r, s)
run (transmit ep bytes k) s = run (k (transmit_now ep bytes s).0) (transmit_now ep bytes s).1
