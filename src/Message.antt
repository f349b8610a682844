-- ===== src/Message.antt =====
-- struct sn_message of src/sn_mq.h (skynet_message of include/skynet.h), and how a payload's type
-- is packed above its size.
use pskynet.Prelude.{ℕ, Option}

-- `data` is the address of the payload, `none` for NULL. `sz` holds the type in its top byte.
pub record Message : Type 0 where
  pub source : ℕ
  pub session : ℕ
  pub data_ptr : Option ℕ
  pub sz : ℕ

-- HANDLE_REMOTE_SHIFT and HANDLE_MASK of include/skynet_harbor.h
abbrev pub handle_remote_shift : ℕ
handle_remote_shift = 24

abbrev pub handle_mask : ℕ
handle_mask = 0xffffff

-- PTYPE_RESPONSE of include/skynet.h
abbrev pub ptype_response : ℕ
ptype_response = 1
