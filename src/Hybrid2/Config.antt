-- ===== src/Hybrid2/Config.antt =====
-- hybrid2/config.go. A duration is in nanoseconds, as `time.Duration` is. The values are variables
-- of the package; here they have the values that the file gives them.
use onramp.Prelude.{ℕ, ◌*◌, ◌/◌}

abbrev pub millisecond : ℕ
millisecond = 1_000_000

abbrev pub second : ℕ
second = 1000 * millisecond

abbrev pub minute : ℕ
minute = 60 * second

abbrev pub repliable_interval : ℕ
repliable_interval = 500

abbrev pub first_message_index : ℕ
first_message_index = 0

abbrev pub repliable_time_interval : ℕ
repliable_time_interval = 4 * minute

abbrev pub hash_expiry_duration : ℕ
hash_expiry_duration = 10 * minute

abbrev pub recv_chan_buffer_size : ℕ
recv_chan_buffer_size = 100

abbrev pub ack_timeout : ℕ
ack_timeout = 10 * second

abbrev pub max_unacked_datagrams : ℕ
max_unacked_datagrams = 3

abbrev pub ack_request_interval : ℕ
ack_request_interval = 1

abbrev pub ack_cleanup_interval : ℕ
ack_cleanup_interval = ack_timeout / 2
