-- ===== src/Lib.antt =====
-- FakeSMC with its sensor plugins: kernel extensions that emulate Apple's system management
-- controller (the SMC) on other computers, and feed it with the readings of their sensors.
--
-- The program. `fakesmc/` is the emulated SMC. It holds an array of keys, each a name of four
-- characters with a type, a size, a value and perhaps a handler (fakesmc/FakeSMCKey.cpp), and a
-- device with I/O ports (fakesmc/FakeSMCDevice.cpp). The operating system is the host: it writes a
-- command to the command port and feeds or drains bytes through the data port. The plugins add keys
-- by callPlatformFunction, with a value or with themselves as the handler; the SMC asks the handler
-- when the host reads the key. A plugin for a Super I/O chip (plugins/SuperIOSensors/) reads the chip
-- over two ports, has a list of sensors, and answers for the keys of these.
--
-- The files, and the code that they are about:
--   Prelude           names of the libraries; Boolean tests, lists, C memory and strings
--   Smc/Key           fakesmc/FakeSMCKey.cpp: init, withValue, withHandler, getValue,
--                     setValueFromBuffer, setHandler, isEqualTo
--   Smc/Device        fakesmc/FakeSMCDevice.h: AppleSMCStatus and the fields of FakeSMCDevice
--   Smc/Store         getKey, addKeyWithValue, addKeyWithHandler, updateSharpKey, saveKeyToNVRAM
--   Smc/Port          applesmc_io_cmd_writeb, _data_writeb, _data_readb, applesmc_fill_data,
--                     applesmc_fill_info, applesmc_get_key_by_index
--   Smc/Port/Transfer, Smc/Port/Protocol
--                     whole transfers of a host, from the command to the last byte
--   Smc/Io            ioRead8 to ioWrite32
--   Smc/Platform      callPlatformFunction
--   Smc/Load          loadKeysFromDictionary, loadKeysFromClover
--   Smc/Message       setProperties, registerInterrupt, causeInterrupt and their neighbours
--   Smc/Model         utils/utils.h: hw_strstr, isModelREVLess
--   Smc/Setup         init of the device
--   SuperIo/Codec     utils/utils.h: swap_value, encode_fp2e, encode_sp4b, encode_fpe2, decode_fpe2
--   SuperIo/Encode    encodeValue of plugins/SuperIOSensors/SuperIOFamily/SuperIOFamily.cpp
--   SuperIo/Bus       plugins/SuperIOSensors/SuperIOFamily/SuperIOFamily.cpp: the access to the chip
--   SuperIo/Sensor, SuperIo/Monitor
--                     plugins/SuperIOSensors/SuperIOFamily/SuperIOFamily.cpp
--   SuperIo/Fintek    plugins/SuperIOSensors/Fintek718x/F718x.cpp
--   SuperIo/Nsc       plugins/SuperIOSensors/NSCPC8739x/PC8739x.cpp
--   SuperIo/Long      the arithmetic on a `long` in getValue of the sensors of ITE and Winbond
--   SuperIo/Config    process_sensor_entry of utils/utils.h, vendorID of SuperIOFamily.cpp, and the
--                     choice of a board's configuration in ITEIT87x.cpp and WinbondW836x.cpp
--   SuperIo/Own       the steps of a start that concern the chip alone
--   SuperIo/Ite       plugins/SuperIOSensors/ITE87x/: registers, class, start
--   SuperIo/Winbond   plugins/SuperIOSensors/WinbondW836x/: models, bits of the divisors, fans,
--                     class, start
--   Cpu/Float         the numbers of type `float` of IntelCPUMonitor.cpp
--   Cpu/Intel         plugins/CPUSensors/IntelCPUMonitor/: the readings of the cores, detection, the
--                     answers to the SMC, start
--   Pci               the monitors of a device on the PCI bus: what they share, and
--                     plugins/CPUSensors/AmdCPUMonitor/, plugins/IntelMCHMonitor/ and
--                     plugins/GPUSensors/IntelX3100/
--   Acpi              plugins/ACPIMonitor/ACPIMonitor.cpp
-- The files under a component's own folder are its proofs; Smc/Tests, SuperIo/Tests, Cpu/Tests,
-- Pci/Tests and Acpi/Tests run the definitions at concrete inputs.
--
-- How the code is read. A method that changes its object is a function from the object before to the
-- object after. A byte is a number, a buffer the list of its bytes, and a read behind the end of a
-- buffer that the caller gives finds 0. An index into one of the arrays of AppleSMCStatus is checked:
-- a read outside is the result `none`, and so are a null pointer that init follows and an overrun of
-- the small buffers of isModelREVLess; the use of a freed iterator in setProperties is an answer of
-- its own. Arithmetic on bytes and words has its wrap-around written out. A key's index in the array
-- stands for the pointer to it, since nothing is ever removed from the array. Allocation and the I/O Kit's calls that make
-- objects succeed.
--
-- What stands outside of the code. The handler of a key is the parameter `call`, of the type
-- Callback, over a state `W` of its own; nothing is assumed of what it answers. The hardware of a
-- Super I/O chip is the parameter `bus`, over a state `H`: outb, inb and the passing of time; again
-- nothing is assumed, but where a chip's register has to keep what is written to it, which is a
-- hypothesis of its theorem. The fields of a chip's own class stand beside the hardware in `H`, and
-- what a chip's class overrides is the record Chip. For the monitors, `W` is the monitor with its
-- hardware and `call` is the monitor's own callPlatformFunction, so that the two components run
-- together. The processor is the parameter `p`, a record Processor of its registers, its counters
-- and the order in which its cores run a function; the PCI bus is a record Pci of the
-- configuration's and the memory's registers, and ACPI is a record Acpi of the methods that there
-- are and what they answer. That a register holds still, or a method keeps a number, is a hypothesis
-- of the theorem that needs it.
--
-- The loops are recursions on the list or the count that the code runs through; none needs fuel.
--
-- Not modelled: the service FakeSMC, which makes the device; nct6775.c, a copy of a driver of Linux;
-- the SMI and battery plugins; the other GPU plugins, most of which are copies of NVClock and
-- nouveau; the user interface hwmonitor and the tool smcdumper. What a chip's class reads behind its
-- own arrays and tables is taken as 0, and a field of its record tells that it did.
pub mod Prelude
pub mod Smc
pub mod SuperIo
pub mod Cpu
pub mod Pci
pub mod Acpi
