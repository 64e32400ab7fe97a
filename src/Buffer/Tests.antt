-- ===== src/Buffer/Tests.antt =====
-- A process whose memory holds ones, and a NUL at the address 103.
use sys_tester.Base.{ℕ, [], sym, ap, arith, ◌==◌, if◌then◌else◌}
use sys_tester.Buffer.{max_path, new_buffer}
use sys_tester.Buffer.Read.{
  ReadCall, bytes_read, Kernel, Calls, read_process_memory, read_process_c_path,
  copy_from_process_bytes,
}
use sys_tester.Buffer.Copied.{
  bytes_at, length-bytes_at, IsPrefix, IsExact, read_process_memory-IsExact,
}
use sys_tester.Buffer.Paths.{IsPath, read_process_c_path-IsPath}
use sys_tester.Buffer.Crossing.{AreInPages, read_process_c_path-AreInPages}
use sys_tester.Buffer.Pages.{IsValid, IsCopy, copy_from_process_bytes-IsCopy}

abbrev memory : ℕ → ℕ
memory a = if a == 103 then 0 else 1

abbrev kernel : Kernel
kernel = record {
  process_vm_readv = λ calls call. bytes_read (bytes_at memory call.address call.len);
  efault = 14;
  enametoolong = 36;
}

answers :
    (calls : Calls) (call : ReadCall) → IsPrefix memory call (kernel.process_vm_readv calls call)
answers calls call =
    let size = length-bytes_at memory call.address call.len in
    (omega (arith, size), ap (bytes_at memory call.address) (sym size))

new_buffer-IsValid : IsValid new_buffer
new_buffer-IsValid = record { owns = omega arith; fits = omega arith }

read_process_memory-IsExact_example :
    IsExact memory 100 3 (read_process_memory kernel 7 100 3 3 [] [])
read_process_memory-IsExact_example = read_process_memory-IsExact kernel 7 100 3 memory [] answers

read_process_c_path-IsPath_example :
    IsPath memory 100 (read_process_c_path kernel 7 100 max_path [] [])
read_process_c_path-IsPath_example = read_process_c_path-IsPath kernel 7 100 memory [] answers

read_process_c_path-AreInPages_example :
    AreInPages (read_process_c_path kernel 7 4000 max_path [] [])
read_process_c_path-AreInPages_example = read_process_c_path-AreInPages kernel 7 4000

copy_from_process_bytes-IsCopy_example :
    IsCopy memory 100 3 (copy_from_process_bytes kernel 7 100 3 new_buffer [])
copy_from_process_bytes-IsCopy_example =
    copy_from_process_bytes-IsCopy kernel 7 100 3 memory new_buffer [] answers new_buffer-IsValid
