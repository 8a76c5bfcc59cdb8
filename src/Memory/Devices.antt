-- ===== src/Memory/Devices.antt =====
-- WriteDeviceMemory and ReadDeviceMemory (src/memory.C), the virtual methods of the devices
-- (include/memmap_device.h), and ApplyEndianness. A buffer is a function from indices to bytes. The
-- endianness of a device is chosen by the same macro as the host's, so that the branches which swap
-- the bytes of a device access are not reached; they are left out.
use dimebox.Common.{
  ℕ, Bool, not, ◌&&◌, ◌+◌, ◌-◌, ◌*◌, ◌/◌, ◌%◌, ◌^◌, ◌==◌, ltb, if◌then◌else◌, Option, none, some,
  List, [], ◌∷◌,
}
use dimebox.Device.Timer.{MachineTimer}
use dimebox.Device.Timer as Timer
use dimebox.Device.Uart.{Uart}
use dimebox.Device.Uart as Uart
use dimebox.Device.Uart.Ports as Ports
use dimebox.Memory.{Device, timer_device, uart_device}

abbrev pub Buffer : Type 0
Buffer = ℕ → ℕ

abbrev pub failed : ℕ
failed = 2 ^ 32 - 1

-- `*(unsigned int *) buffer`.
unfoldable word_of : Buffer → ℕ
word_of buffer = buffer 0 + buffer 1 * 2 ^ 8 + buffer 2 * 2 ^ 16 + buffer 3 * 2 ^ 24

unfoldable store_word : ℕ → Buffer → Buffer
store_word rval buffer i = if ltb i 4 then rval / 2 ^ (8 * i) % 2 ^ 8 else buffer i

unfoldable store_read : Option ℕ → Buffer → Buffer
unfolding store_word
store_read none buffer = buffer
store_read (some rval) buffer = store_word rval buffer

unfoldable pub is_implemented : Device → Bool
is_implemented (timer_device t) = t.is_implemented
is_implemented (uart_device u) = u.is_implemented

unfoldable pub in_range : ℕ → Device → Bool
unfolding Timer.in_range Uart.in_range
in_range pa (timer_device t) = Timer.in_range pa t
in_range pa (uart_device u) = Uart.in_range pa u

unfoldable pub is_mapped : ℕ → Device → Bool
unfolding Timer.is_mapped Uart.is_mapped
is_mapped pa (timer_device t) = Timer.is_mapped pa
is_mapped pa (uart_device u) = Uart.is_mapped pa

-- A timer stores 0 for a word that it has no register for.
unfoldable read_device : ℕ → Buffer → ℕ → Device → ℕ × (Buffer × Device)
unfolding Timer.read Ports.read store_word store_read
read_device pa buffer size (timer_device t) = elim (Timer.read pa size t) [
  | none ↦ (failed, (if size == 4 then store_word 0 buffer else buffer, timer_device t))
  | some rval ↦ (0, (store_word rval buffer, timer_device t))
]
read_device pa buffer size (uart_device u) =
    let (rcode, (stored, after)) = Ports.read pa size u in
    (rcode, (store_read stored buffer, uart_device after))

unfoldable write_device : ℕ → Buffer → ℕ → Device → ℕ × Device
unfolding Timer.write Ports.write word_of
write_device pa buffer size (timer_device t) = elim (Timer.write pa (word_of buffer) size t) [
  | none ↦ (failed, timer_device t)
  | some after ↦ (0, timer_device after)
]
write_device pa buffer size (uart_device u) =
    let (rcode, after) = Ports.write pa (word_of buffer) size u in (rcode, uart_device after)

-- The whole words of the bytes, on a little-endian host: in order, or the bytes of each one swapped.
unfoldable apply_endianness : Buffer → Buffer → Bool → ℕ → ℕ → Buffer
apply_endianness dest src big_endian access_size total_number_of_bytes i =
    let word_index = i / access_size * access_size in
    let inside = ltb i (total_number_of_bytes / access_size * access_size) in
    if not inside
    then dest i
    else if not big_endian
    then src i
    else src (word_index + (access_size - 1 - i % access_size))

-- What an access comes to on a device that it falls in the range of.
unfoldable device_write : ℕ → Buffer → ℕ → Bool → Device → ℕ × Device
unfolding is_mapped write_device
device_write pa buffer number_of_bytes for_test device =
    if for_test
    then (failed, device)
    else if is_mapped pa device
    then write_device pa buffer number_of_bytes device
    else (failed, device)

unfoldable device_read : ℕ → Buffer → ℕ → Bool → Device → ℕ × (Buffer × Device)
unfolding is_mapped read_device
device_read pa buffer number_of_bytes for_test device =
    if for_test
    then (failed, (buffer, device))
    else if is_mapped pa device
    then read_device pa buffer number_of_bytes device
    else (failed, (buffer, device))

unfoldable pub answers : ℕ → Device → Bool
unfolding is_implemented in_range
answers pa device = is_implemented device && in_range pa device

-- The first device that answers is accessed: the return code, and the devices then.
unfoldable pub write_devices : ℕ → Buffer → ℕ → Bool → List Device → Option (ℕ × List Device)
unfolding answers device_write
write_devices pa buffer number_of_bytes for_test [] = none
write_devices pa buffer number_of_bytes for_test (device ∷ devices) =
    let rest = write_devices pa buffer number_of_bytes for_test devices in
    let (rcode, after) = device_write pa buffer number_of_bytes for_test device in
    if answers pa device
    then some (rcode, after ∷ devices)
    else elim rest [ none ↦ none | some (code, others) ↦ some (code, device ∷ others) ]

unfoldable pub read_devices :
    ℕ → Buffer → ℕ → Bool → List Device → Option (ℕ × (Buffer × List Device))
unfolding answers device_read
read_devices pa buffer number_of_bytes for_test [] = none
read_devices pa buffer number_of_bytes for_test (device ∷ devices) =
    let rest = read_devices pa buffer number_of_bytes for_test devices in
    let (rcode, (bytes, after)) = device_read pa buffer number_of_bytes for_test device in
    if answers pa device then some (rcode, (bytes, after ∷ devices)) else elim rest [
      | none ↦ none
      | some (code, (others_bytes, others)) ↦ some (code, (others_bytes, device ∷ others))
    ]
