-- ===== src/Netbuf.antt =====
-- custom_src/driver/cust_driver_netbuf.c with the stack offload compiled in (ENABLE_STACK_OFFLOAD),
-- and the pool pointers of common_src/include/netbuf.h: the network buffers and their queues.
pub mod Queue
pub mod Buffer
