-- ===== src/Lib.antt =====
-- The Bluetooth file transfer server of raspberry_pi-bluez_server_file_transfer, which serves the files
-- of a Raspberry Pi to a SLATE106 with E-Kermit over MLDP characteristics.
--
-- The program's parts, and where they stand (paths from raspberry_pi-bluez_server_file_transfer/):
--   src/main.c scans for the SLATE, connects, writes three SPS characteristics and then answers the
--   MLDP writes.  The bytes that the SLATE writes go into the rx FIFO; the first ones start the
--   transfer thread.  The thread, src/file_transfer_task.c, calls src/libfile_transfer/libfile_transfer.c,
--   this src/libe_kermit/libe-kermit.c, and this E-Kermit, which reads packets by kreadpkt of
--   src/libe_kermit/unixio_rpi.c from the rx FIFO and sends them by ktx_data through the tx FIFO.
--
--   Fifo          src/fifo.c: fifo_init, fifo_length, fifo_put, fifo_get, fifo_read, fifo_write,
--                 fifo_flush, is_fifo_full and is_fifo_empty, without the prefix `fifo_` where the
--                 module gives it; read_into and write_from are fifo_read and fifo_write past the test
--                 of their pointers.  Fifo/Queue is the specification, Fifo/Sequence
--                 any sequence of calls, Fifo/Race the two threads at once.
--   Link          src/main.c: tx_fifo_send_bytes; a round of its loop is tx_round, with the parts
--                 fetched (the read from the FIFO) and transmit (the call of BlueZ).
--   UnixIo/Packet src/libe_kermit/unixio_rpi.c: kreadpkt (wait is its inner loop, deal what it does
--                 with one byte) and ktx_data.
--   UnixIo/File   the same file: kadd_rootpath, kopenfile, kreadfile (refill and text_fill are its parts),
--                 kwritefile, kclosefile, kaccessfile; UnixIo/File/Session is their calls in any order,
--                 with what E-Kermit does to the buffer between them.
--                 UnixIo/Dir is kgetdirdata, with a text of any length; UnixIo/Dir/Etag
--                 takes its etags from open files.
--   Wire          the handlers of src/main.c under kreadpkt and ktx_data; Wire/Engine is kermit_main's read
--                 of a packet by kreadpkt; Wire/Timeout is kreadpkt over ft_wait_ms, the
--                 usleep of fifo_get and a clock.
--   Kermit        src/libe_kermit/libe-kermit.c: kermit_main (loop, round and main_end are its parts);
--                 Kermit/Ek has _EK_init to _EK_dir, Kermit/Bsp the build with BSP_INTERNAL_BUFFER_SIZE.
--   Transfer      src/libfile_transfer/libfile_transfer.c: FT_init to FT_dir; Transfer/Task is ft_task.
--   Adv           src/main.c: read_flags, eir_parse_name, check_report_filter, slate_research.
--   Central       src/main.c: the connection step, the GATT callbacks, the handlers of the transfer
--                 thread; Central/Discovery the handles of the characteristics, Central/Scan the scan,
--                 the connection and the rounds of main, Central/Main main itself, Central/Main/Address
--                 the address that it takes, Central/Create gatt_central_create, Central/Database
--                 populate_db, Central/Waiting ft_wait_ms, Central/Mainloop the callbacks one after the
--                 other.
--   Crc           src/libcrc32/libcrc32_file.c, in the variant for files of the C library: Crc32Fast and
--                 CRCF_calc_crc_soft on the list of the bytes of a file.  Crc/Stream has CRCF_fsize,
--                 CRCF_fread, CRCF_fseek, CRCF_calc_crc_soft and CRCF_calc_crc on an open file, by crcf_*
--                 and stream_*.
--   Base          what the modules share.
--
-- A state is a record of the C structure's members and the locals that live across a loop; a function
-- that changes the state returns the new one.  A FIFO's buffer is a list, uint32_t arithmetic is written
-- modulo 2 ^ 32.  What a read just past the end of a FIFO's buffer gives is the parameter `stray`.
--
-- Parameters, since their code is of other projects: BlueZ and pthreads (a state and the functions
-- bt_gatt_client_write_value, bt_gatt_client_write_without_response, pthread_create, which may answer
-- anything), the database of BlueZ (the record GattDb, what gatt-db.c does in Allocates), E-Kermit (the
-- record Engine), the clock (Clock), ftell, fseek and fread (Stdio, with Regular for those of a file),
-- the results of the system calls of a round of main, and what the mainloop leaves when it returns.  Of
-- the files of E-Kermit, what fopen, opendir, stat, write, fclose and close give is a parameter; a file
-- that is read is the list of the bytes left of it, and the results on reading take the buffer of 512
-- bytes and 8 more that _EK_init sets up.
-- A callback is a step that runs as a whole; the rx FIFO, which two threads of the program use without
-- a lock, is used by one call at a time here, but in Fifo/Race, whose steps are the tests, loads and
-- stores of fifo_get and fifo_put.  A store into cmd[5] of kreadpkt, one cell past the array, goes to a sixth
-- cell here and changes nothing else.
--
-- Fuel: tx_fifo_send_bytes gets 4 n + 4 rounds for n bytes, three refusals and a success for each
-- packet.  kreadpkt has a fuel for its rounds, one for each byte, and one for
-- each wait, r_timo * 120 polls of ten milliseconds.  read_flags gets one more round than the report has
-- bytes, since each round passes two at least.  kermit_main and ft_task loop as long as their peer
-- goes on; the results on them that need an end say how much fuel gives it.
--
-- Not modelled: src/libe_kermit/kermit.c, src/mainloop.c and bluez_deps, copies of other projects;
-- the parts of src/libcrc32 that are not built; the functions of src/main.c that only print services;
-- kfileinfo and the kdev functions of src/libe_kermit/unixio_rpi.c, which only return 0; usleep
-- outside Wire/Timeout, and printing.
pub mod Adv
pub mod Base
pub mod Central
pub mod Crc
pub mod Fifo
pub mod Kermit
pub mod Link
pub mod Transfer
pub mod UnixIo
pub mod Wire
