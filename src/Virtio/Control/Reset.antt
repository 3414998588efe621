-- ===== src/Virtio/Control/Reset.antt =====
-- Resetting a device and acknowledging its interrupts.
use orlix_system.Prelude.{◌-◌, ℕ, ◌+◌, ◌^◌, ◌<◌, ◌≡◌, refl, false, some, [], ◌∷◌, bit_and, true}
use orlix_system.Prelude.Bits.Masks.{bit_and-parts}
use orlix_system.Virtio.Device.{Host, Device, zero_queue}
use orlix_system.Virtio.Registers.{Register}
use orlix_system.Virtio.Control.{write_register}

module _ {W : Type 0} (host : Host W) (fuel : ℕ) (d : Device W) where
  -- What a reset leaves: no work, no queue, no features, no interrupt and status 0, and the four
  -- selectors, the timer, what the slot is and the guest as they were.
  pub record IsReset (d' : Device W) : Type 0 where
    pub guest_same : d'.guest ≡ d.guest
    pub no_queues : d'.slot.queues ≡ zero_queue ∷ zero_queue ∷ []
    pub no_features : d'.slot.driver_features ≡ 0 ∷ 0 ∷ []
    pub no_interrupt : d'.slot.interrupt_status ≡ 0
    pub no_status : d'.slot.status ≡ 0
    pub no_pending : d'.slot.pending_queues ≡ 0
    pub no_work : d.slot.notify_work_initialized ≡ true → d'.slot.notify_work_queued ≡ false
    pub sel_same : d'.slot.queue_sel ≡ d.slot.queue_sel
    pub driver_sel_same : d'.slot.driver_features_sel ≡ d.slot.driver_features_sel
    pub shm_sel_same : d'.slot.shm_sel ≡ d.slot.shm_sel
    pub base_same : d'.slot.base ≡ d.slot.base
    pub irq_same : d'.slot.irq ≡ d.slot.irq
    pub device_same : d'.slot.device_id ≡ d.slot.device_id
    pub block_same : d'.slot.host_block_device ≡ d.slot.host_block_device
    pub read_only_same : d'.slot.read_only ≡ d.slot.read_only
    pub identifier_same : d'.slot.device_identifier ≡ d.slot.device_identifier
    pub work_same : d'.slot.notify_work_initialized ≡ d.slot.notify_work_initialized
    pub timer_ready_same :
        d'.slot.console_input_timer_initialized ≡ d.slot.console_input_timer_initialized
    pub features_sel_same : d'.slot.device_features_sel ≡ d.slot.device_features_sel
    pub timer_same : d'.slot.console_input_timer ≡ d.slot.console_input_timer

  -- An acknowledgement takes exactly the acknowledged bits out of the interrupt status: what is
  -- left and those bits make up the old status.
  pub interrupt_ack :
      (value : ℕ)
      → value < 2 ^ 32
      → d.slot.interrupt_status < 2 ^ 32
      → (d' : Device W) × (write_register host fuel Register.interrupt_ack value d ≡ some d')
        × (bit_and d.slot.interrupt_status value + d'.slot.interrupt_status
            ≡ d.slot.interrupt_status)
  unfolding write_register
  interrupt_ack value h h' = (
    record d {
      slot = record (d.slot) {
        interrupt_status = bit_and d.slot.interrupt_status (0xffffffff - value);
      };
    },
    refl,
    bit_and-parts 32 d.slot.interrupt_status value h' h,
  )
