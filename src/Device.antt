-- ===== src/Device.antt =====
-- The memory mapped devices: include/memmap_device.h, the timer, the queue of a UART.
pub mod Timer
pub mod TimerLaws
pub mod Queue
pub mod QueueLaws
pub mod Tests
pub mod Uart
