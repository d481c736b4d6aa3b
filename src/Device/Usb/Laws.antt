-- ===== src/Device/Usb/Laws.antt =====
-- What `USBDevice` of cobra_system_control/cobra_system_control/device.py reads and writes.
use m.Common.{ℕ, zero, suc, ◌+◌, ◌≡◌, refl, ap, ◌∙◌, Bool, true, false, replicate, arith}
use m.Device.Pack.{unpack, reverse_onto, from_low_first}
use m.Device.Usb.{UsbDevice, device_read}

reverse_zeros : (n k : ℕ) → reverse_onto (replicate n 0) (replicate k 0) ≡ replicate (n + k) 0
reverse_zeros zero k = let e : 0 + k ≡ k = omega arith in rw e refl
reverse_zeros (suc n) k =
    let e : n + suc k ≡ suc n + k = omega arith in
    reverse_zeros n (suc k) ∙ ap (λ (t : ℕ). replicate t 0) e

from_zeros : (n : ℕ) → from_low_first (replicate n 0) ≡ 0
from_zeros zero = refl
from_zeros (suc n) = omega (arith, from_zeros n)

unpack_zeros : (big : Bool) (n : ℕ) → unpack big (replicate n 0) ≡ 0
unfolding unpack
unpack_zeros true n =
    let e : n + 0 ≡ n = omega arith in
    ap from_low_first (reverse_zeros n 0 ∙ ap (λ (t : ℕ). replicate t 0) e) ∙ from_zeros n
unpack_zeros false n = from_zeros n

-- USBDevice.read gives 0 at every address.
pub device_read-eq-zero : (d : UsbDevice) (a : ℕ) → device_read d a ≡ 0
unfolding device_read
device_read-eq-zero d a = unpack_zeros d.data_bigendian d.data_nbytes
