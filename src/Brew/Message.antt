-- ===== src/Brew/Message.antt =====
-- internal/brew/protocol.go: the codes and the message types of the Brew protocol. A Go string or
-- byte slice is a list of bytes; a `uuid.UUID` is the list of its 16 bytes.
use freetetra.Prelude.{ℕ, List, Outcome}

-- `Class…`, the first byte of a packet.
abbrev pub class_subscriber : ℕ
class_subscriber = 0xf0

abbrev pub class_call_control : ℕ
class_call_control = 0xf1

abbrev pub class_frame : ℕ
class_frame = 0xf2

abbrev pub class_error : ℕ
class_error = 0xf3

abbrev pub class_service : ℕ
class_service = 0xf4

-- `Subscriber…`.
abbrev pub subscriber_deregister : ℕ
subscriber_deregister = 0

abbrev pub subscriber_register : ℕ
subscriber_register = 1

abbrev pub subscriber_reregister : ℕ
subscriber_reregister = 2

abbrev pub subscriber_affiliate : ℕ
subscriber_affiliate = 8

abbrev pub subscriber_deaffiliate : ℕ
subscriber_deaffiliate = 9

-- `CallState…`.
abbrev pub call_state_group_tx : ℕ
call_state_group_tx = 2

abbrev pub call_state_group_idle : ℕ
call_state_group_idle = 3

abbrev pub call_state_setup_request : ℕ
call_state_setup_request = 4

abbrev pub call_state_setup_accept : ℕ
call_state_setup_accept = 5

abbrev pub call_state_setup_reject : ℕ
call_state_setup_reject = 6

abbrev pub call_state_call_alert : ℕ
call_state_call_alert = 7

abbrev pub call_state_connect_request : ℕ
call_state_connect_request = 8

abbrev pub call_state_connect_confirm : ℕ
call_state_connect_confirm = 9

abbrev pub call_state_call_release : ℕ
call_state_call_release = 10

abbrev pub call_state_short_transfer : ℕ
call_state_short_transfer = 11

abbrev pub call_state_simplex_granted : ℕ
call_state_simplex_granted = 12

abbrev pub call_state_simplex_idle : ℕ
call_state_simplex_idle = 13

abbrev pub call_state_pdp_request : ℕ
call_state_pdp_request = 14

abbrev pub call_state_pdp_accept : ℕ
call_state_pdp_accept = 15

abbrev pub call_state_pdp_reject : ℕ
call_state_pdp_reject = 16

abbrev pub call_state_pdp_release : ℕ
call_state_pdp_release = 17

-- `FrameType…`.
abbrev pub frame_type_traffic_channel : ℕ
frame_type_traffic_channel = 0

abbrev pub frame_type_sds_transfer : ℕ
frame_type_sds_transfer = 1

abbrev pub frame_type_sds_report : ℕ
frame_type_sds_report = 2

abbrev pub frame_type_dtmf_data : ℕ
frame_type_dtmf_data = 3

abbrev pub frame_type_packet_data : ℕ
frame_type_packet_data = 4

-- `ServiceType…`.
abbrev pub service_type_query_subscribers : ℕ
service_type_query_subscribers = 1

abbrev pub service_type_attachment_control_v1 : ℕ
service_type_attachment_control_v1 = 128

pub record SubscriberMessage : Type 0 where
  pub msg_type : ℕ
  pub number : ℕ
  pub time : ℕ
  pub fraction : ℕ
  pub groups : List ℕ

pub record GroupTransmissionPayload : Type 0 where
  pub source : ℕ
  pub destination : ℕ
  pub priority : ℕ
  pub access : ℕ
  pub service : ℕ

pub record CircularCallPayload : Type 0 where
  pub source : ℕ
  pub destination : ℕ
  pub number : List ℕ
  pub priority : ℕ
  pub service : ℕ
  pub mode : ℕ
  pub duplex : ℕ
  pub method : ℕ
  pub communication : ℕ
  pub grant : ℕ
  pub permission : ℕ
  pub timeout : ℕ
  pub ownership : ℕ
  pub queued : ℕ

pub record CircularGrantPayload : Type 0 where
  pub grant : ℕ
  pub permission : ℕ

pub record ShortDataPayload : Type 0 where
  pub source : ℕ
  pub destination : ℕ
  pub number : List ℕ

pub record ShortTransferStatusPayload : Type 0 where
  pub pre_coded_status : ℕ

pub record PacketRequestPayload : Type 0 where
  pub number : ℕ
  pub flags : ℕ
  pub profile : ℕ
  pub authenticator : List ℕ

pub record PacketContextPayload : Type 0 where
  pub flags : ℕ
  pub ipv4 : ℕ
  pub ipv6 : List ℕ
  pub profile : ℕ

-- The dynamic types that `CallControlMessage.Payload`, an `any`, is switched on.
pub data CallPayload : Type 0 where
  group_transmission : GroupTransmissionPayload → CallPayload
  circular_call : CircularCallPayload → CallPayload
  circular_grant : CircularGrantPayload → CallPayload
  short_data : ShortDataPayload → CallPayload
  short_transfer_status : ShortTransferStatusPayload → CallPayload
  packet_request : PacketRequestPayload → CallPayload
  packet_context : PacketContextPayload → CallPayload
  cause : ℕ → CallPayload
  empty : CallPayload
  raw : List ℕ → CallPayload
  bytes : List ℕ → CallPayload
  nil : CallPayload
  other : CallPayload

pub record CallControlMessage : Type 0 where
  pub call_state : ℕ
  pub identifier : List ℕ
  pub payload : CallPayload

pub record FrameMessage : Type 0 where
  pub frame_type : ℕ
  pub identifier : List ℕ
  pub length_bits : ℕ
  pub content : List ℕ

pub record ErrorMessage : Type 0 where
  pub error_type : ℕ
  pub content : List ℕ

pub record ServiceMessage : Type 0 where
  pub service_type : ℕ
  pub json_data : List ℕ

pub data ParsedMessage : Type 0 where
  subscriber : SubscriberMessage → ParsedMessage
  call_control : CallControlMessage → ParsedMessage
  frame : FrameMessage → ParsedMessage
  error : ErrorMessage → ParsedMessage
  service : ServiceMessage → ParsedMessage

-- The errors of the parser and the builder, with the numbers that their texts print.
pub data Error : Type 0 where
  too_short : Error
  invalid_call_uuid : Error
  invalid_frame_uuid : Error
  unknown_class : ℕ → Error
  frame_payload_too_short : ℕ → ℕ → Error
  traffic_payload_empty : Error
  sds_transfer_payload_empty : Error
  sds_report_length : ℕ → Error
  dtmf_length : ℕ → Error
  invalid_dtmf_byte : ℕ → Error
  packet_payload_empty : Error
  packet_not_ip : ℕ → Error
  nil_message : Error
  group_payload_state : ℕ → Error
  status_payload_state : ℕ → Error
  unsupported_payload : Error

abbrev pub Result : Type 0 → Type 0
Result A = Outcome Error A
