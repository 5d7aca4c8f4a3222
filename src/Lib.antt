-- ===== src/Lib.antt =====
-- The host driver of the Atheros AR4100 family of Wi-Fi chips: its packets and queues, the protocol
-- between host and target, the bus, and the ways of packets, commands and events through them.
--
-- The parts, and the files that model them:
--   * Netbuf (custom_src/driver/cust_driver_netbuf.c, common_src/include/netbuf.h): a packet is an
--     A_NETBUF. Netbuf/Buffer has its operations on the four pointers, which are 32-bit addresses into
--     a byte memory, on its fragments and on its transport object. Netbuf/Queue has the queues, chains
--     through the queueLink fields of the buffers.
--   * Htc (common_src/htc/htc.c): the protocol to the target. Htc has the endpoints and the two ways in
--     which the target announces transmit credits, reports in trailers and a counter in a register.
--     Htc/Frame has the headers and trailers of frames, Htc/Connect the services and the start.
--   * Transmit (common_src/driver/driver_txrx.c and driver_main.c): a request gets its credits and
--     enters the queue (Driver_SubmitTxRequest, Driver_SubmitEp0TxRequest); Driver_TxReady decides
--     whether its head can be sent; Driver_DropTxDataPackets resolves a credit deadlock.
--   * Bus (common_src/hcd/spi_hcd.c): the SPI bus under the driver. Bus has the register accesses and the
--     mask of interrupts with its shadow, Bus/Interrupt Hcd_BusInterrupt, Bus/Watermark the write buffer
--     of the target, Bus/Transfer the data of a request (Bus_InOutDescriptorSet), Bus/External the
--     accesses through the host-control port, Bus/Request Hcd_Request and the end of its DMA transfer,
--     Bus/Start Hcd_Init, Hcd_ReinitTarget and Hcd_GetLookAhead. Bus/Device is a target to test on.
--   * Loop (common_src/driver/driver_txrx.c and driver_main.c, common_src/hw_interface/hw_api.c): a
--     request on its way (Driver_SendPacket, Driver_RecvPacket, Driver_PostProcessRequest) and its
--     completion (Driver_CompleteRequest with Driver_RxComplete, Driver_TxComplete and
--     Driver_Ep0TxComplete, HW_ProcessPendingInterrupts); Loop/Receive has
--     Driver_RxReady, Loop/Flags the orders of events as a step relation.
--   * Wmi (common_src/wmi/wmi.c): the messages to and from the firmware. Wmi has the headers of data
--     frames, Wmi/Control the commands (wmi_cmd_start, wmi_cmd_send) and the events (wmi_control_rx),
--     Wmi/Build the commands that are put together there.
--   * Packet (common_src/api_interface/api_txrx.c): Api_DataTxStart takes a packet of the network stack
--     through the headers of Wmi to the queue of Transmit, as Api_WmiTxStart does with a command;
--     Packet/Receive has Api_RxComplete, which gives events to Wmi and packets to the stack.
--   * Bmi (common_src/bmi/bmi.c): the bootloader messages, by which the host reads and writes the
--     memory of the target before its firmware runs.
--   * Strrcl (common_src/storerecall/storerecall.c, with its requests and events in
--     custom_src/api_interface and common_src/api_interface): the target is switched off and started again; Strrcl/Order has the
--     orders of events as a step relation.
--   * Reorder (common_src/reorder/rcv_aggr.c): which received frames of an aggregate are forwarded.
--   * Dset (common_src/storerecall/dset.c): the data sets that the host keeps for the target.
--   * Handles (common_src/storerecall/dset_api.c): the handles of the data sets that the target keeps.
--   * Util (common_src/util/util.c): channel numbers and frequencies, the table of endpoints.
-- Prelude has the names and the lemmas that they share.
--
-- How code becomes definitions: each function is a definition of the same name, without the prefix
-- of its file (Htc_SendPacket is send_packet, a_netbuf_push is push). State is passed explicitly,
-- in records with the fields of the source's structs. Machine integers are natural numbers with the
-- wrap-around written out. Assertions are enabled, and a failed one loops for ever (assert_func):
-- an Outcome is a result or a halt, and statements after a halt do not run. NULL results are none.
-- The queue of the transmit path is the list of its requests; Netbuf/Queue shows that the linked
-- queue keeps such a list. A queue operation is one step, as interrupts are off or the caller holds
-- the lock during it.
--
-- Arguments of the model: what A_MALLOC returns, the registers of the target as PIO accesses read
-- them, the hooks of ath_custom_htc, and the bus layer under Driver_TxReady (Transmit.Hcd). Bus and
-- Loop take the CUSTOM_... and HW_... functions of custom_src as a record (Bus.Custom) over a state
-- of which they know nothing: it stands for the target, the memory that a transfer moves and the
-- host's controller. Loop/Receive also takes CUSTOM_DRIVER_GET_RX_REQ, and Handles remote_dset_op.
-- Wmi/Control takes the handlers of events as one function over a state of their own, which may
-- halt as their assertions do.
-- Api_DataTxStart takes how its wait for a connection and Api_DriverAccessCheck end. Bmi takes
-- bmiBufferSend and bmiBufferReceive (Bmi.Channel), and Strrcl how the steps of the start end. What
-- the theorems rely on of them are Answers, IsRegister (Bus/Shadow), Moves (Bus/Transfer/Bytes),
-- KeepsMask (Bus/Request/Kept) and, for include/bmi_msg.h outside the address of segmented writes,
-- IsTarget (Bmi/Loops).
--
-- Configuration: ENABLE_STACK_OFFLOAD, ENABLE_P2P_MODE, MANUFACTURING_SUPPORT, ENABLE_KF_PERFORMANCE and assertions are
-- on, with one device and no hooks of ath_custom_init; WLAN_CONFIG_ENABLE_WMI_SYNC,
-- USE_16BIT_CREDIT_COUNTER, RESERVE_ONE_CREDIT_FOR_CONTROL and
-- DRIVER_CONFIG_IMPLEMENT_RX_FREE_MULTIPLE_QUEUE are off; the host is little-endian.
--
-- Fuel: process_trailer takes the length of the trailer, of which a round uses two bytes at least;
-- search_from and purge_loop take a bound on the length of the queue; the loop over the fragments
-- of a request takes their number and 2; the loops of Bmi take the length of the range. The
-- theorems say that it is enough. The poll of an external access counts the 200 tries of the
-- source.
--
-- Not modelled: Driver_Main, the handling of the CPU interrupt in HW_ProcessPendingInterrupts and
-- what Api_RxComplete and Api_TxComplete do for the callbacks of requests (they do not touch the
-- state of the bus); of the bus layer Hcd_ClearCPUInterrupt, Hcd_EnableCPUInterrupt
-- and Hcd_Deinitialize; of WMI the traffic streams, some builders of commands and the handlers of
-- events (common_src/api_interface/api_wmi_rx.c); of the bootloader messages BMIGetTargetInfo and
-- the two transfers below them, which join the bus layer; the diagnostic window
-- (common_src/driver/driver_diag.c), the power states around a store-recall, the interfaces to the
-- application (api_interface, qapi, stack_common), and the bindings to the hardware and the
-- operating system (custom_src/hw_interface, custom_src/osal).
pub mod Bmi
pub mod Bus
pub mod Dset
pub mod Handles
pub mod Htc
pub mod Loop
pub mod Netbuf
pub mod Packet
pub mod Prelude
pub mod Reorder
pub mod Strrcl
pub mod Transmit
pub mod Util
pub mod Wmi
